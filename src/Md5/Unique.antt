-- ===== src/Md5/Unique.antt =====
-- No scope has two keys in a list of MD5 keys of redhat_kernel/tcp_ipv4.c, and the removal of a key.
use starlink_tcp.Common.{
  ℕ, ◌≡◌, refl, sym, ◌∙◌, List, [], ◌∷◌, Option, none, if-cases, if◌then◌else◌, Bool-cases, inl,
  inr,
}
use starlink_tcp.Md5.{Scope, Key, exact, find, overwritten, removed}
use starlink_tcp.Md5.Table.{
  compared, exact_sound, exact_complete, exact-same, key_of, made, some≢none,
}

exact-left : (s t : Scope) (k : Key) → compared s ≡ compared t → exact s k ≡ exact t k
exact-left s t k e = elim (Bool-cases (exact s k)) [
  | inl a ↦ a ∙ sym (exact_complete t k (exact_sound s k a ∙ e))
  | inr a ↦ elim (Bool-cases (exact t k)) [
    | inl b ↦ let c = exact_complete s k (exact_sound t k b ∙ sym e) in cc
    | inr b ↦ a ∙ sym b
  ]
]

find-left :
    (s t : Scope) (ks : List Key) → compared s ≡ compared t → find (exact s) ks ≡ find (exact t) ks
find-left s t [] e = refl
find-left s t (k ∷ ks) e = rw (exact-left s t k e, find-left s t ks e) refl

-- No scope has two keys.
abbrev pub IsDistinct : List Key → Type 0
IsDistinct [] = Unit
IsDistinct (k ∷ ks) = (find (exact k.scope) ks ≡ none) × IsDistinct ks

pub find-removed :
    (s t : Scope) (newkey : List ℕ) (ks : List Key)
    → IsDistinct ks
    → key_of (find (exact t) (removed s ks))
      ≡ (if exact t (made s newkey) then none else key_of (find (exact t) ks))
unfolding removed
find-removed s t newkey [] d =
    if-cases (λ (o : Option (List ℕ)). none ≡ o) (exact t (made s newkey)) (λ _. refl) (λ _. refl)
find-removed s t newkey (k ∷ ks) (n, d) = elim (Bool-cases (exact s k)) [
  | inl a ↦
      let like = exact-same t k (made s newkey) (exact_sound s k a) in
      elim (Bool-cases (exact t k)) [
        | inl b ↦
            let gone = find-left t k.scope ks (sym (exact_sound t k b)) ∙ n in
            rw a (rw (sym like ∙ b, gone) refl)
        | inr b ↦ rw a (rw (sym like ∙ b, b) refl)
      ]
  | inr a ↦ elim (Bool-cases (exact t k)) [
    | inl b ↦ elim (Bool-cases (exact t (made s newkey))) [
      | inl c ↦
          let no = exact_complete s k (exact_sound t k b ∙ sym (exact_sound t (made s newkey) c)) in
          cc
      | inr c ↦ rw a (rw (b, c) refl)
    ]
    | inr b ↦ rw a (rw b (find-removed s t newkey ks d))
  ]
]

find-overwritten-none :
    (s u : Scope) (newkey : List ℕ) (ks : List Key)
    → find (exact u) ks ≡ none
    → find (exact u) (overwritten s newkey ks) ≡ none
unfolding overwritten
find-overwritten-none s u newkey [] e = refl
find-overwritten-none s u newkey (k ∷ ks) e =
    let same = exact-same u (record k { key = newkey }) k refl in
    elim (Bool-cases (exact u k)) [
      | inl b ↦ some≢none k (sym (rw b at e))
      | inr b ↦
          let later : find (exact u) ks ≡ none = rw b at e in
          elim (Bool-cases (exact s k)) [
            | inl a ↦ rw a (rw (same ∙ b) later)
            | inr a ↦ rw a (rw b (find-overwritten-none s u newkey ks later))
          ]
    ]

find-removed-none :
    (s u : Scope) (ks : List Key) → find (exact u) ks ≡ none → find (exact u) (removed s ks) ≡ none
unfolding removed
find-removed-none s u [] e = refl
find-removed-none s u (k ∷ ks) e = elim (Bool-cases (exact u k)) [
  | inl b ↦ some≢none k (sym (rw b at e))
  | inr b ↦
      let later : find (exact u) ks ≡ none = rw b at e in
      elim (Bool-cases (exact s k)) [
        | inl a ↦ rw a later
        | inr a ↦ rw a (rw b (find-removed-none s u ks later))
      ]
]

pub overwritten-IsDistinct :
    (s : Scope) (newkey : List ℕ) (ks : List Key)
    → IsDistinct ks
    → IsDistinct (overwritten s newkey ks)
unfolding overwritten
overwritten-IsDistinct s newkey [] d = tt
overwritten-IsDistinct s newkey (k ∷ ks) (n, d) =
    if-cases IsDistinct (exact s k) (λ _. (n, d))
      (λ _. (find-overwritten-none s k.scope newkey ks n, overwritten-IsDistinct s newkey ks d))

pub removed-IsDistinct : (s : Scope) (ks : List Key) → IsDistinct ks → IsDistinct (removed s ks)
unfolding removed
removed-IsDistinct s [] d = tt
removed-IsDistinct s (k ∷ ks) (n, d) =
    if-cases IsDistinct (exact s k) (λ _. d)
      (λ _. (find-removed-none s k.scope ks n, removed-IsDistinct s ks d))
