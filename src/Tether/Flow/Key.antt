-- ===== src/Tether/Flow/Key.antt =====
-- What a parsed flow satisfies, and what its key tells apart.
use android_device_ikko_mind.Common.{
  ℕ, zero, suc, ◌/◌, ◌%◌, ◌≤◌, ◌<◌, ◌≡◌, refl, ap, ◌⊎◌, Bool, true, false, some, [], ◌∷◌, ◌++◌,
  arith, length, take, drop, replicate, length-append, ◌==◌, ◌||◌, ◌&&◌, leb, load_le,
}
use android_device_ikko_mind.Tether.Flow.{
  Bytes, Attributes, Tuple, tuple, widen, Flow, key, reply, body, parse_flow, af_inet, af_inet6,
  ipproto_tcp, ipproto_udp, attributes, flow_id, default_zone, find, bind-some, guard,
}

length-take : (n : ℕ) (xs : Bytes) → n ≤ length xs → length (take n xs) ≡ n
length-take zero xs h = refl
length-take (suc n) [] h = absurd (omega arith)
length-take (suc n) (x ∷ xs) h = ap suc (length-take n xs (omega arith))

length-widen : (v : Bytes) → length (widen v) ≡ 16
length-widen v =
    length-take 16 (v ++ replicate 16 0) (omega (arith, length-append v (replicate 16 0)))

pub record IsFlow (f : Flow) : Type 0 where
  pub family_known : (f.family ≡ af_inet) ⊎ (f.family ≡ af_inet6)
  pub proto_known : (f.proto ≡ ipproto_tcp) ⊎ (f.proto ≡ ipproto_udp)
  pub src_size : length f.src ≡ 16
  pub dst_size : length f.dst ≡ 16

tuple_sizes :
    (a : Attributes) (type family : ℕ) {t : Tuple}
    → tuple a type family ≡ some t
    → (length t.src ≡ 16) × (length t.dst ≡ 16)
unfolding tuple
tuple_sizes a type family h = grind (arith, length-widen)

reply_keeps :
    (a : Attributes) (f : Flow) {g : Flow}
    → reply a f ≡ some g
    → (g.family ≡ f.family)
      × (g.proto ≡ f.proto)
      × (g.src ≡ f.src)
      × (g.dst ≡ f.dst)
      × (g.destroy ≡ f.destroy)
unfolding reply
reply_keeps a f h = ground arith

one_of : (p a b : ℕ) {u : Unit {0}} → guard (p == a || p == b) ≡ some u → (p ≡ a) ⊎ (p ≡ b)
one_of p a b h = ground arith

one_of_and :
    (p a b : ℕ) (c : Bool) {u : Unit {0}}
    → guard ((p == a || p == b) && c) ≡ some u
    → (p ≡ a) ⊎ (p ≡ b)
one_of_and p a b true h = ground arith
one_of_and p a b false h = ground arith

at_least : (a b : ℕ) {u : Unit {0}} → guard (leb a b) ≡ some u → a ≤ b
at_least a b h = ground arith

body-IsFlow :
    (family : ℕ) (destroy : Bool) (bytes : Bytes) {f : Flow}
    → (family ≡ af_inet) ⊎ (family ≡ af_inet6)
    → body family destroy bytes ≡ some f
    → IsFlow f
unfolding body
body-IsFlow family destroy bytes e h =
    let (a, _, h1) = bind-some (attributes bytes) _ h in
    let (t, ht, h2) = bind-some (tuple a 1 family) _ h1 in
    let (_, hg, h3) = bind-some (guard (t.proto == ipproto_tcp || t.proto == ipproto_udp)) _ h2 in
    let (id, _, h4) = bind-some (flow_id a (find 12 a)) _ h3 in
    let (_, _, h5) = bind-some (default_zone a (find 18 a)) _ h4 in
    let sizes = tuple_sizes a 1 family ht in
    let same = reply_keeps a _ h5 in
    record {
      family_known = rw same.0 e;
      proto_known = rw same.1 (one_of _ 6 17 hg);
      src_size = rw same.2 sizes.0;
      dst_size = rw same.3 sizes.1;
    }

-- A message that is parsed has its whole header, and gives a flow of IPv4 or IPv6, of TCP or UDP, with
-- 16 bytes in the addresses of its key.
parse_flow-IsFlow :
    (buffer : Bytes) {f : Flow} → parse_flow buffer ≡ some f → IsFlow f × (20 ≤ length buffer)
unfolding parse_flow
parse_flow-IsFlow buffer h =
    let family = load_le 16 1 buffer in
    let command = load_le 4 2 buffer % 256 in
    let (_, h1, t1) = bind-some (guard (leb 20 (length buffer))) _ h in
    let (_, h2, t2) =
      bind-some (guard (load_le 0 4 buffer == length buffer && load_le 4 2 buffer / 256 == 1)) _
        t1 in
    let (_, h3, t3) = bind-some (guard (command == 0 || command == 2)) _ t2 in
    let (_, h4, t4) =
      bind-some (guard ((family == af_inet || family == af_inet6) && load_le 17 1 buffer == 0)) _
        t3 in
    (
      body-IsFlow family (command == 2) (drop 20 buffer) (one_of_and family 2 10 _ h4) t4,
      at_least 20 (length buffer) h1,
    )

append_split :
    (xs ys : Bytes) {r s : Bytes} → length xs ≡ length ys → xs ++ r ≡ ys ++ s → (xs ≡ ys) × (r ≡ s)
append_split [] [] h e = (refl, e)
append_split [] (y ∷ ys) h e = absurd (omega arith)
append_split (x ∷ xs) [] h e = absurd (omega arith)
append_split (x ∷ xs) (y ∷ ys) h e =
    let (p, q) = append_split xs ys (omega arith) (ap (λ l. drop 1 l) e) in (cc, q)

-- Two flows with well-formed addresses and ports and one key agree in everything that a key is made
-- of: family, protocol, addresses and ports.
pub key_injective :
    (f g : Flow)
    → IsFlow f
    → IsFlow g
    → f.sport < 65536
    → f.dport < 65536
    → g.sport < 65536
    → g.dport < 65536
    → key f ≡ key g
    → (f.family ≡ g.family)
      × (f.proto ≡ g.proto)
      × (f.src ≡ g.src)
      × (f.dst ≡ g.dst)
      × (f.sport ≡ g.sport)
      × (f.dport ≡ g.dport)
unfolding key
key_injective f g vf vg a b c d e =
    let (srcs, e2) = append_split f.src g.src (omega arith) (ap (λ l. drop 2 l) e) in
    let (dsts, e3) = append_split f.dst g.dst (omega arith) e2 in
    (ground arith, ground arith, srcs, dsts, ground arith, ground arith)
