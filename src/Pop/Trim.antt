-- ===== src/Pop/Trim.antt =====
-- `trim_whitespace` of bin/app_layer_rtt/tcp_ping_receiver_pop.c takes off the space at both ends,
-- and nothing else.
use starlink_tcp.Common.{
  ℕ, zero, suc, ◌≤◌, ◌<◌, ◌≡◌, arith, refl, subst, ◌≢◌, ap, sym, ◌∙◌, Bool, true, false, Bool-cases,
  inl, inr, List, [], ◌∷◌, ◌++◌, some, length, take, append_assoc, append-nil,
}
use starlink_tcp.Pop.{
  is_space, skip_space, space_at, cut, trim_whitespace, c_string, fgets, ran,
  get_pop_ip_from_script,
}

abbrev pub AllSpace : List ℕ → Type 0
AllSpace [] = Unit
AllSpace (c ∷ cs) = (is_space c ≡ true) × AllSpace cs

-- The first character is no space.
abbrev pub Starts : List ℕ → Type 0
Starts [] = Unit
Starts (c ∷ cs) = is_space c ≡ false

-- The last character is no space.
abbrev pub Ends : List ℕ → Type 0
Ends [] = Unit
Ends (c ∷ []) = is_space c ≡ false
Ends (c ∷ d ∷ ds) = Ends (d ∷ ds)

skip_space_lem :
    (s : List ℕ)
    → (front : List ℕ) × (s ≡ front ++ skip_space s) × AllSpace front × Starts (skip_space s)
unfolding skip_space
skip_space_lem [] = ([], refl, tt, tt)
skip_space_lem (c ∷ cs) = elim (Bool-cases (is_space c)) [
  | inl space ↦
      rw space
        (let (front, e, a, b) = skip_space_lem cs in (c ∷ front, ap (λ t. c ∷ t) e, (space, a), b))
  | inr other ↦ rw other ([], refl, tt, other)
]

AllSpace-append : (xs ys : List ℕ) → AllSpace xs → AllSpace ys → AllSpace (xs ++ ys)
AllSpace-append [] ys a b = b
AllSpace-append (x ∷ xs) ys a b = (a.0, AllSpace-append xs ys a.1 b)

-- The last of the first `suc len` characters is the one at `len`.
take-Ends :
    (s : List ℕ) (len : ℕ) → space_at s len ≡ false → len < length s → Ends (take (suc len) s)
unfolding space_at
take-Ends [] len e h = absurd (omega arith)
take-Ends (c ∷ []) zero e h = e
take-Ends (c ∷ d ∷ ds) zero e h = e
take-Ends (c ∷ []) (suc len) e h = absurd (omega arith)
take-Ends (c ∷ d ∷ ds) (suc len) e h = take-Ends (d ∷ ds) len e (omega arith)

take-suc :
    (s : List ℕ) (len : ℕ)
    → len < length s
    → space_at s len ≡ true
    → (c : ℕ) × (take (suc len) s ≡ take len s ++ (c ∷ [])) × (is_space c ≡ true)
unfolding space_at
take-suc [] len h e = absurd (omega arith)
take-suc (c ∷ []) zero h e = (c, refl, e)
take-suc (c ∷ d ∷ ds) zero h e = (c, refl, e)
take-suc (c ∷ cs) (suc len) h e =
    let (d, q, b) = take-suc cs len (omega arith) e in (d, ap (λ t. c ∷ t) q, b)

take-zero : (s : List ℕ) → take zero s ≡ []
take-zero [] = refl
take-zero (c ∷ cs) = refl

cut_lem :
    (s : List ℕ) (len : ℕ)
    → len ≤ length s
    → (back : List ℕ) × (take len s ≡ cut s len ++ back) × AllSpace back × Ends (cut s len)
unfolding cut
cut_lem s zero h = ([], take-zero s, tt, tt)
cut_lem s (suc len) h = elim (Bool-cases (space_at s len)) [
  | inl space ↦ rw space (
      let (back, e, a, b) = cut_lem s len (omega arith) in
      let (c, q, d) = take-suc s len (omega arith) space in
      (
        back ++ (c ∷ []),
        q ∙ ap (λ t. t ++ (c ∷ [])) e ∙ append_assoc (cut s len) back (c ∷ []),
        AllSpace-append back (c ∷ []) a (d, tt),
        b,
      ))
  | inr other ↦
      rw other ([], sym (append-nil (take (suc len) s)), tt, take-Ends s len other (omega arith))
]

take-length : (s : List ℕ) → take (length s) s ≡ s
take-length [] = refl
take-length (c ∷ cs) = ap (λ t. c ∷ t) (take-length cs)

Starts-append : (xs ys : List ℕ) → Starts (xs ++ ys) → Starts xs
Starts-append [] ys h = tt
Starts-append (x ∷ xs) ys h = h

-- A string without some space before it and after it, which neither begins nor ends with a space.
abbrev pub IsTrimmed : List ℕ → List ℕ → Type 0
IsTrimmed s r =
    (front : List ℕ) × (back : List ℕ) × (s ≡ front ++ (r ++ back))
    × AllSpace front
    × AllSpace back
    × Starts r
    × Ends r

-- What is left after a trim is the string without some space before it and some space after it, and
-- it neither begins nor ends with a space (so it is empty if the string is all space).
pub trim_whitespace-IsTrimmed : (s : List ℕ) → IsTrimmed s (trim_whitespace s)
unfolding trim_whitespace
trim_whitespace-IsTrimmed s =
    let (front, e, a, b) = skip_space_lem s in
    let (back, q, c, d) = cut_lem (skip_space s) (length (skip_space s)) (omega arith) in
    let whole : skip_space s ≡ cut (skip_space s) (length (skip_space s)) ++ back =
      sym (take-length (skip_space s)) ∙ q in
    (
      front,
      back,
      e ∙ ap (λ t. front ++ t) whole,
      a,
      c,
      Starts-append (cut (skip_space s) (length (skip_space s))) back (subst Starts whole b),
      d,
    )

-- An address that the script yields is its first line (127 characters at most, up to a `\\0`)
-- trimmed, a valid IPv4 address by `inet_pton`, and the script's status was 0.
get_pop_ip-Valid :
    (inet_pton : List ℕ → Bool) (output : List ℕ) (status : ℕ) {ip : List ℕ}
    → get_pop_ip_from_script inet_pton (ran output status) ≡ some ip
    → (inet_pton ip ≡ true)
      × (status ≡ 0)
      × (ip ≡ trim_whitespace (c_string (fgets 127 output)))
      × (output ≢ [])
unfolding get_pop_ip_from_script
get_pop_ip-Valid inet_pton [] status e = cc
get_pop_ip-Valid inet_pton (c ∷ cs) status e = ground arith
