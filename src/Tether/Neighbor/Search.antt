-- ===== src/Tether/Neighbor/Search.antt =====
-- What an address found in the dump says, and that the dump is read to its end.
use android_device_ikko_mind.Common.{
  ℕ, zero, suc, ◌≤◌, ◌≡◌, refl, sym, ◌⊎◌, inl, inr, true, false, Option, none, some, List, [], ◌∷◌,
  arith, Option-cases, Bool-cases, length, drop, length-drop, load_le,
}
use android_device_ikko_mind.Tether.Flow.{Bytes, Flow}
use android_device_ikko_mind.Tether.Neighbor.{
  Received, Scan, failed, complete, goes_on, message_ok, take_message, scan, align, transact, Entry,
  usable, is_unicast, is_entry, entry, search, neighbor, attributes_of,
}

message_ok_len : (bytes : Bytes) → message_ok bytes ≡ true → 16 ≤ load_le 0 4 bytes
unfolding message_ok
message_ok_len bytes h = ground arith

Scan-cases :
    (s : Scan)
    → (s ≡ failed) ⊎ (((l : List Bytes) × (s ≡ complete l)) ⊎ ((l : List Bytes) × (s ≡ goes_on l)))
Scan-cases failed = inl refl
Scan-cases (complete l) = inr (inl (l, refl))
Scan-cases (goes_on l) = inr (inr (l, refl))

scan_agrees :
    (n m sequence : ℕ) (bytes : Bytes) (replies : List Bytes)
    → length bytes ≤ n
    → length bytes ≤ m
    → scan n sequence bytes replies ≡ scan m sequence bytes replies
unfolding scan
scan_agrees n m sequence [] replies h k = refl
scan_agrees zero m sequence (b ∷ bytes) replies h k = absurd (omega arith)
scan_agrees (suc n) zero sequence (b ∷ bytes) replies h k = absurd (omega arith)
scan_agrees (suc n) (suc m) sequence (b ∷ bytes) replies h k =
    let all = b ∷ bytes in
    elim (Bool-cases (message_ok all)) [
      | inr bad ↦ rw bad refl
      | inl good ↦
          let len = message_ok_len all good in
          elim (Scan-cases (take_message sequence all replies)) [
            | inl e ↦ rw (good, e) refl
            | inr (inl (l, e)) ↦ rw (good, e) refl
            | inr (inr (l, e)) ↦
                let step =
                  scan_agrees n m sequence (drop (align (load_le 0 4 all)) all) l
                    (omega (arith, length-drop (align (load_le 0 4 all)) all))
                    (omega (arith, length-drop (align (load_le 0 4 all)) all)) in
                rw (good, e, step) refl
          ]
    ]

-- The bytes bound the rounds: any greater number of rounds reads the same from a datagram.
pub scan_rounds :
    (n sequence : ℕ) (bytes : Bytes) (replies : List Bytes)
    → length bytes ≤ n
    → scan n sequence bytes replies ≡ scan (length bytes) sequence bytes replies
scan_rounds n sequence bytes replies h =
    scan_agrees n (length bytes) sequence bytes replies h (omega arith)

usable_sound : (o : Option Entry) {mac : Bytes} → usable o ≡ some mac → is_unicast mac ≡ true
unfolding usable
usable_sound none h = cc
usable_sound (some e) h = elim (Option-cases e.hardware) [
  | inl none_e ↦ ground arith
  | inr (m, some_e) ↦ ground arith
]

-- Some dumped message that is an entry gives the address.
abbrev pub Gives : Flow → ℕ → Bytes → List Bytes → Type 0
Gives f index mac [] = ⊥
Gives f index mac (reply ∷ rest) =
    ((is_entry f index reply ≡ true) × (entry f index reply ≡ some mac)) ⊎ Gives f index mac rest

entry_sound :
    (f : Flow) (index : ℕ) (reply : Bytes) {mac : Bytes}
    → entry f index reply ≡ some mac
    → (is_entry f index reply ≡ true) × (is_unicast mac ≡ true)
unfolding entry
entry_sound f index reply {mac} h =
    let body = drop 28 reply in
    let o = attributes_of (length body) f body (record { found = false; hardware = none }) in
    elim (Bool-cases (is_entry f index reply)) [
      | inl fits ↦ let given : usable o ≡ some mac = ground arith in (fits, usable_sound o given)
      | inr other ↦ ground arith
    ]

search_sound :
    (f : Flow) (index : ℕ) (replies : List Bytes) {mac : Bytes}
    → search f index replies ≡ some mac
    → (is_unicast mac ≡ true) × Gives f index mac replies
unfolding search
search_sound f index [] h = cc
search_sound f index (reply ∷ rest) {mac} h = elim (Option-cases (entry f index reply)) [
  | inl e ↦
      let later : search f index rest ≡ some mac = ground arith in
      let known = search_sound f index rest later in (known.0, inr known.1)
  | inr (m, e) ↦
      let same : m ≡ mac = ground arith in
      let here : entry f index reply ≡ some mac = rw (sym same) e in
      let known = entry_sound f index reply here in (known.1, inl (known.0, here))
]

-- An address that `neighbor` finds is no group's address and not zero, and one of the entries that the
-- kernel dumped, of the flow's family, on the interface and in a usable state, gives it.
pub neighbor_sound :
    (f : Flow) (index sequence : ℕ) (received : List Received) {mac : Bytes}
    → neighbor f index sequence received ≡ some mac
    → (is_unicast mac ≡ true)
      × ((replies : List Bytes) × (transact sequence received [] ≡ some replies)
          × Gives f index mac replies)
unfolding neighbor
neighbor_sound f index sequence received h = elim (Option-cases (transact sequence received [])) [
  | inl e ↦ ground arith
  | inr (replies, e) ↦
      let s = search_sound f index replies (ground arith) in (s.0, (replies, e, s.1))
]
