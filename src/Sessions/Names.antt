-- ===== src/Sessions/Names.antt =====
-- The two name maps of a session stay inverse to each other (src/session/session.py).
use local_first_llm_privacy.Common.{
  ℕ, true, none, some, List, [], ◌∷◌, ◌≡◌, sym, ap, ◌∙◌, inl, inr, arith, Option-cases, get, put,
  has, text_eq-cases, get-put, get-put_other, is_some,
}
use local_first_llm_privacy.Common.Chars.{Text}
use local_first_llm_privacy.Sessions.{EntityType, KnownSurrogate, Session, first_free, commit}

-- A real value's surrogate leads back to it and the other way round, and every surrogate name stands
-- in the registry of known surrogates.
pub record IsConsistent (s : Session) : Type 0 where
  pub back : (r c : Text) → get r s.name_forward ≡ some c → get c s.name_reverse ≡ some r
  pub forth : (r c : Text) → get c s.name_reverse ≡ some r → get r s.name_forward ≡ some c
  pub known : (r c : Text) → get c s.name_reverse ≡ some r → has c s.known_surrogates ≡ true

abbrev Inverts : List (Text × Text) → List (Text × Text) → Type 0
Inverts m n = (a b : Text) → get a m ≡ some b → get b n ≡ some a

pub get-put_same :
    {V : Type 0} (c k : Text) (v : V) (d : List (Text × V)) → c ≡ k → get c (put k v d) ≡ some v
get-put_same c k v d same = ap (λ x. get x (put k v d)) same ∙ get-put k v d

put-Inverts :
    (m n : List (Text × Text)) (k v : Text)
    → Inverts m n
    → get v n ≡ none
    → Inverts (put k v m) (put v k n)
put-Inverts m n k v inv free a b h = elim (text_eq-cases a k) [
  | inl same ↦
      let e : some v ≡ some b = sym (get-put_same a k v m same) ∙ h in
      let e' : b ≡ v = cc in get-put_same b v k n e' ∙ ap (λ x. some x) (sym same)
  | inr other ↦
      let old : get b n ≡ some a = inv a b (sym (get-put_other a k v m other) ∙ h) in
      elim (text_eq-cases b v) [
        | inl same ↦
            let bad : none ≡ some a = sym free ∙ ap (λ x. get x n) (sym same) ∙ old in
            absurd (ground (arith, bad))
        | inr apart ↦ get-put_other b v k n apart ∙ old
      ]
]

pub has-put :
    (c k : Text) (v : KnownSurrogate) (d : List (Text × KnownSurrogate))
    → has c d ≡ true
    → has c (put k v d) ≡ true
unfolding has
has-put c k v d h = elim (text_eq-cases c k) [
  | inl same ↦ ap is_some (get-put_same c k v d same)
  | inr other ↦ ap is_some (get-put_other c k v d other) ∙ h
]

pub commit-IsConsistent :
    (s : Session) (r c : Text) (kind : EntityType) (now : ℕ)
    → IsConsistent s
    → get r s.name_forward ≡ none
    → get c s.name_reverse ≡ none
    → IsConsistent (commit s r kind now c)
unfolding commit has
commit-IsConsistent s r c kind now h new free = record {
  back = put-Inverts s.name_forward s.name_reverse r c h.back free;
  forth = λ r' c'. put-Inverts s.name_reverse s.name_forward c r (λ a b. h.forth b a) new c' r';
  known = λ r' c' e. elim (text_eq-cases c' c) [
    | inl same ↦ ap is_some (get-put_same c' c _ s.known_surrogates same)
    | inr other ↦
        has-put c' c _ s.known_surrogates
          (h.known r' c' (sym (get-put_other c' c r s.name_reverse other) ∙ e))
  ];
}

pub first_free-get :
    (taken : List (Text × Text)) (candidates : List Text) (c : Text)
    → first_free taken candidates ≡ some c
    → get c taken ≡ none
unfolding first_free has
first_free-get taken [] c h = absurd (ground (arith, h))
first_free-get taken (x ∷ candidates) c h = elim (Option-cases (get x taken)) [
  | inl free ↦
      let now : some x ≡ some c = rw free at h in
      let e : c ≡ x = cc in ap (λ x. get x taken) e ∙ free
  | inr (r, e) ↦
      let rest : first_free taken candidates ≡ some c = rw e at h in
      first_free-get taken candidates c rest
]
