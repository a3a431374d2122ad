-- ===== src/Fsd/Reply/Rounds.antt =====
-- modem/ccci-userspace/fsd/ccci_fsd.c: what a message of the modem is answered with.
use android_device_ikko_mind.Common.{
  ℕ, ◌+◌, ◌^◌, ◌<◌, ◌≤◌, ◌≡◌, ◌⊎◌, refl, sym, ap, Bool, true, false, Bool-cases, Option-cases, inl,
  inr, Option, none, some, List, [], ◌∷◌, leb, ◌&&◌, ◌||◌, not, length, length-drop, load_le_lt,
  take, drop, arith, load_le, bit_or, All,
}
use android_device_ikko_mind.Fsd.Wire.{
  Bytes, word, put_segs, fs_err_enoent, Req, parse_segs, parse_req, build_resp,
}
use android_device_ikko_mind.Fsd.Wire.RoundTrip.{size_of, build_resp_outcomes}
use android_device_ikko_mind.Fsd.Os.{Os, State}
use android_device_ikko_mind.Fsd.Cmpt.{handle_cmpt_write}
use android_device_ikko_mind.Fsd.Op.{Op, op_of}
use android_device_ikko_mind.Fsd.Serve.{io_buf_size, Answer}
use android_device_ikko_mind.Fsd.Round.{
  Paths, paths, answered, unusable, read_paths, serve_paths, serve_known, or_enoent, serve_parsed,
  is_cmpt_write, is_cmpt_read, unknown_path, serve_message, dropped, request_id, round,
}
use android_device_ikko_mind.Fsd.Reply.{
  Reads, Replies, room, reads_file, length-put_segs, put_segs-All, result-Replies,
}
use android_device_ikko_mind.Fsd.Reply.Ops.{
  Sized, write_result-Replies, cmpt_read-Replies, serve_op-Sized,
}

unfoldable pub op_reads : Option Op → Bool
op_reads none = false
op_reads (some op) = reads_file op

-- Whether a message asks for the bytes of a file.
unfoldable pub asks_for_file : Bytes → Bool
asks_for_file msg =
    not (is_cmpt_write msg) && (is_cmpt_read msg || op_reads (op_of (request_id msg)))

parse_req-op_id :
    (payload : Bytes) (req : Req)
    → parse_req payload ≡ some req
    → (req.op_id ≡ load_le 0 4 payload) × (8 ≤ length payload)
unfolding parse_req
parse_req-op_id payload req e =
    elim (Option-cases (parse_segs (load_le 4 4 payload) (drop 8 payload))) [
      | inl n ↦ absurd (ground arith)
      | inr (segs, p) ↦ (ground arith, ground arith)
    ]

length_0 : {out : Bytes} → out ≡ [] → length out ≤ io_buf_size
length_0 e = rw e (ground arith)

room_lt : (b : Bool) → (room b ≤ 15 + io_buf_size) × (b ≡ false → room b ≡ 270)
unfolding room
room_lt true = (ground arith, λ e. absurd (ground arith))
room_lt false = (ground arith, λ e. refl)

module _ {W : Type 0} (os : Os W) (law : Reads os) where
  Sized-eq : {m n : ℕ} → m ≡ n → (o : Option (Answer W)) → Sized os n o → Sized os m o
  Sized-eq e o h = rw e h

  serve_paths-Sized :
      (s : State W) (op : Op) (segs : List Bytes) (p : Paths)
      → Sized os (room (reads_file op)) (serve_paths os s op segs p)
  unfolding serve_paths
  serve_paths-Sized s op segs (paths path real real2) =
      serve_op-Sized os law s op segs path real real2
  serve_paths-Sized s op segs (answered rc) = result-Replies (room (reads_file op)) rc
  serve_paths-Sized s op segs unusable = tt

  serve_known-Sized :
      (s : State W) (segs : List Bytes) (o : Option Op)
      → Sized os (room (op_reads o)) (serve_known os s segs o)
  unfolding serve_known op_reads
  serve_known-Sized s segs none = tt
  serve_known-Sized s segs (some op) = serve_paths-Sized s op segs (read_paths op segs)

  or_enoent-Replies :
      (m : ℕ) (s : State W) (o : Option (Answer W)) → Sized os m o → Replies m (or_enoent s o).1
  unfolding or_enoent
  or_enoent-Replies m s none h = result-Replies m fs_err_enoent
  or_enoent-Replies m s (some a) h = h

  serve_parsed-Replies :
      (s : State W) (msg : Bytes)
      → Replies
          (room (op_reads (op_of (request_id msg))))
          (serve_parsed os s (parse_req (drop 16 msg))).1
  unfolding serve_parsed
  serve_parsed-Replies s msg = elim (Option-cases (parse_req (drop 16 msg))) [
    | inl n ↦ rw n (result-Replies (room (op_reads (op_of (request_id msg)))) fs_err_enoent)
    | inr (req, p) ↦
        let (i, l) = parse_req-op_id (drop 16 msg) req p in
        let same : req.op_id ≡ request_id msg =
          let d = length-drop 16 msg in
          let long : leb 20 (length msg) ≡ true = ground arith in rw long i in
        let h = serve_known-Sized s req.segs (op_of req.op_id) in
        rw p (
          or_enoent-Replies (room (op_reads (op_of (request_id msg)))) s
            (serve_known os s req.segs (op_of req.op_id))
            (Sized-eq (ap (λ v. room (op_reads (op_of v))) (sym same))
              (serve_known os s req.segs (op_of req.op_id)) h))
  ]

  serve_message-Replies :
      (s : State W) (msg : Bytes) → Replies (room (asks_for_file msg)) (serve_message os s msg).1
  unfolding serve_message asks_for_file
  serve_message-Replies s msg = elim (Bool-cases (is_cmpt_write msg)) [
    | inl p ↦
        rw p
          (write_result-Replies os (room false) (handle_cmpt_write os s (drop 16 msg) unknown_path))
    | inr p ↦ elim (Bool-cases (is_cmpt_read msg)) [
      | inl q ↦ rw (p, q) (cmpt_read-Replies os law s (take 36 (drop 64 msg)) unknown_path)
      | inr q ↦ rw (p, q) (serve_parsed-Replies s msg)
    ]
  ]

  put_segs-size :
      (rc : ℕ) (rest : List Bytes) → size_of (word rc ∷ rest) ≡ 32 + length (put_segs rest)
  put_segs-size rc rest = let l = length-put_segs (word rc) rest in omega arith

  -- Every message that is not dropped is served with a result of one word and at most two further
  -- segments. Where these and the header are no longer than 4096 bytes, the answer is a message of at most
  -- 4096 bytes that reads, as a request does, as the operation's number marked by its upper half and just
  -- these segments. Where they are longer, which only happens if the message asks for bytes of a file, the
  -- answer is empty, so that nothing is sent. The message is made of bytes, and the system reads no more
  -- bytes than it is asked for.
  pub round_answers :
      (s : State W) (msg : Bytes)
      → All (λ b. b < 256) msg
      → dropped msg ≡ false
      → (rc : ℕ) × (rest : List Bytes) × (out : Bytes) × (length rest ≤ 2)
        × ((serve_message os s msg).1 ≡ word rc ∷ rest)
        × ((round os s msg).1 ≡ some out)
        × (length out ≤ io_buf_size)
        × (((asks_for_file msg ≡ true) × (io_buf_size < size_of (word rc ∷ rest)) × (out ≡ []))
            ⊎ ((size_of (word rc ∷ rest) ≤ io_buf_size)
                × (parse_req (drop 16 out)
                    ≡ some (record {
                      op_id = bit_or (request_id msg) 0xFFFF0000;
                      segs = word rc ∷ rest;
                    }))))
  unfolding round room
  round_answers s msg bytes d =
      let (rc, rest, e, n, size) = serve_message-Replies s msg in
      let out = build_resp io_buf_size (take 16 msg) (request_id msg) (word rc ∷ rest) in
      let all = put_segs-size rc rest in
      let id : request_id msg < 2 ^ 32 = let l = load_le_lt 16 msg bytes in ground arith in
      let short : length (put_segs (word rc ∷ rest)) < 2 ^ 32 =
        let b = room_lt (asks_for_file msg) in ground arith in
      elim (build_resp_outcomes io_buf_size (request_id msg) (take 16 msg) (word rc ∷ rest)
        (ground arith) (ground arith) id (put_segs-All (2 ^ 32) (word rc ∷ rest) short)
        (ground arith)) [
          | inl (big, empty) ↦ elim (Bool-cases (asks_for_file msg)) [
            | inl a ↦ (rc, rest, out, n, e, rw (d, e) refl, length_0 empty, inl (a, big, empty))
            | inr a ↦ let small = (room_lt (asks_for_file msg)).1 a in absurd (ground arith)
          ]
          | inr (fits_, len, stated, read) ↦
              (rc, rest, out, n, e, rw (d, e) refl, ground arith, inr (fits_, read))
        ]
