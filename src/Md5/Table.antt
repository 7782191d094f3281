-- ===== src/Md5/Table.antt =====
-- What the exact search of redhat_kernel/tcp_ipv4.c compares, and what it finds in a list of MD5
-- keys one of which is overwritten.
use starlink_tcp.Common.{
  ℕ, ◌≡◌, refl, sym, ap, ◌∙◌, arith, List, [], ◌∷◌, Bool, true, Option, none, some, if◌then◌else◌,
  Bool-cases, inl, inr, take,
}
use starlink_tcp.Md5.{Scope, Key, same_bytes, addr_size, exact, find, overwritten}

-- What the exact search compares.
pub record Compared : Type 0 where
  pub family : ℕ
  pub bit : Bool
  pub device : ℕ
  pub bytes : List ℕ
  pub prefix : ℕ

abbrev pub compared : Scope → Compared
compared s = record {
  family = s.family;
  bit = s.ifindex;
  device = s.l3index;
  bytes = take (addr_size s.family) s.addr;
  prefix = s.prefixlen;
}

same_bytes_sound : (xs ys : List ℕ) → same_bytes xs ys ≡ true → xs ≡ ys
same_bytes_sound [] [] e = refl
same_bytes_sound [] (y ∷ ys) e = cc
same_bytes_sound (x ∷ xs) [] e = cc
same_bytes_sound (x ∷ xs) (y ∷ ys) e =
    let head : x ≡ y = ground arith in let tail = same_bytes_sound xs ys (ground arith) in cc

same_bytes_refl : (xs : List ℕ) → same_bytes xs xs ≡ true
same_bytes_refl [] = refl
same_bytes_refl (x ∷ xs) = ground (arith, same_bytes_refl xs)

pub exact_sound : (s : Scope) (k : Key) → exact s k ≡ true → compared k.scope ≡ compared s
unfolding exact
exact_sound s k e =
    let t = k.scope in
    let f : t.family ≡ s.family = ground arith in
    let b : t.ifindex ≡ s.ifindex = ground arith in
    let l : t.l3index ≡ s.l3index = ground arith in
    let p : t.prefixlen ≡ s.prefixlen = ground arith in
    let a : same_bytes (take (addr_size s.family) t.addr) (take (addr_size s.family) s.addr)
        ≡ true =
      ground arith in
    let bytes : take (addr_size t.family) t.addr ≡ take (addr_size s.family) s.addr =
      ap (λ n. take (addr_size n) t.addr) f ∙ same_bytes_sound _ _ a in
    cc

pub exact_complete : (s : Scope) (k : Key) → compared k.scope ≡ compared s → exact s k ≡ true
unfolding exact
exact_complete s k e =
    let t = k.scope in
    let f : t.family ≡ s.family = ap (λ (c : Compared). c.family) e in
    let b : t.ifindex ≡ s.ifindex = ap (λ (c : Compared). c.bit) e in
    let l : t.l3index ≡ s.l3index = ap (λ (c : Compared). c.device) e in
    let p : t.prefixlen ≡ s.prefixlen = ap (λ (c : Compared). c.prefix) e in
    let bytes : take (addr_size s.family) t.addr ≡ take (addr_size s.family) s.addr =
      ap (λ n. take (addr_size n) t.addr) (sym f) ∙ ap (λ (c : Compared). c.bytes) e in
    let a : same_bytes (take (addr_size s.family) t.addr) (take (addr_size s.family) s.addr)
        ≡ true =
      ap (λ xs. same_bytes xs (take (addr_size s.family) s.addr)) bytes
      ∙ same_bytes_refl (take (addr_size s.family) s.addr) in
    ground arith

-- The exact search cannot tell apart two keys that it finds for one scope.
pub exact-same :
    (t : Scope) (j k : Key) → compared j.scope ≡ compared k.scope → exact t j ≡ exact t k
exact-same t j k e = elim (Bool-cases (exact t j)) [
  | inl a ↦ a ∙ sym (exact_complete t k (sym e ∙ exact_sound t j a))
  | inr a ↦ elim (Bool-cases (exact t k)) [
    | inl b ↦ let c = exact_complete t j (e ∙ exact_sound t k b) in cc
    | inr b ↦ a ∙ sym b
  ]
]

abbrev pub key_of : Option Key → Option (List ℕ)
key_of none = none
key_of (some k) = some k.key

-- The key of a scope, as `tcp_md5_do_add` makes it.
abbrev pub made : Scope → List ℕ → Key
made s newkey = record { scope = s; key = newkey }

pub some≢none : {P : Type 0} (k : Key) → none ≡ some k → P
some≢none k e = cc

pub find-overwritten :
    (s t : Scope) (newkey : List ℕ) (ks : List Key) (j : Key)
    → find (exact s) ks ≡ some j
    → key_of (find (exact t) (overwritten s newkey ks))
      ≡ (if exact t (made s newkey) then some newkey else key_of (find (exact t) ks))
unfolding overwritten
find-overwritten s t newkey [] j e = some≢none j e
find-overwritten s t newkey (k ∷ ks) j e = elim (Bool-cases (exact s k)) [
  | inl a ↦
      let same = exact-same t (record k { key = newkey }) k refl in
      let like = exact-same t k (made s newkey) (exact_sound s k a) in
      elim (Bool-cases (exact t k)) [
        | inl b ↦ rw a (rw (same ∙ b, sym like ∙ b) refl)
        | inr b ↦ rw a (rw (same ∙ b, sym like ∙ b, b) refl)
      ]
  | inr a ↦ elim (Bool-cases (exact t k)) [
    | inl b ↦ elim (Bool-cases (exact t (made s newkey))) [
      | inl c ↦
          let no = exact_complete s k (exact_sound t k b ∙ sym (exact_sound t (made s newkey) c)) in
          cc
      | inr c ↦ rw a (rw (b, c) refl)
    ]
    | inr b ↦ let ih = find-overwritten s t newkey ks j (rw a at e) in rw a (rw b ih)
  ]
]
