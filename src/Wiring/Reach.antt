-- ===== src/Wiring/Reach.antt =====
-- Where messages end, as a relation, and that `follow` decides it.
use mathlib.Core.Path.{subst}
use mathlib.Core.List.Memᴰ
use mathlib.Core.List.{Memᴰ}
use lf_autoware.Base.{
  ℕ, zero, suc, ◌≡◌, refl, sym, ◌∙◌, ◌↔◌, Option, none, some, List, [], ◌∷◌, ◌++◌, inl, inr, arith,
}
use lf_autoware.Wiring.{Pin, Edge, targets, both, gather, from_targets, follow}

-- A message that leaves the first pin ends at the second, to which some connections lead and from
-- which none does.
pub data Leads (es : List Edge) : Pin → Pin → Type 0 where
  ends : {p : Pin} → targets es p ≡ [] → Leads es p p
  hop : {p q r : Pin} → Memᴰ q (targets es p) → Leads es q r → Leads es p r

some_inj : {A : Type 0} (x y : A) → some x ≡ some y → x ≡ y
some_inj x y e = cc

both-some :
    (a b : Option (List Pin)) (rs : List Pin)
    → both a b ≡ some rs
    → (xs : List Pin) × (ys : List Pin) × (a ≡ some xs) × (b ≡ some ys) × (xs ++ ys ≡ rs)
both-some (some xs) (some ys) rs e = (xs, ys, refl, refl, some_inj (xs ++ ys) rs e)
both-some (some xs) none rs e = absurd (ground arith)
both-some none b rs e = absurd (ground arith)

-- Each pin that is gathered comes from one of the pins.
gather_sound :
    (f : Pin → Option (List Pin)) (qs rs : List Pin) (r : Pin)
    → gather f qs ≡ some rs
    → Memᴰ r rs
    → (q : Pin) × Memᴰ q qs × ((xs : List Pin) × (f q ≡ some xs) × Memᴰ r xs)
gather_sound f [] rs r e m =
    absurd (Memᴰ.not-nil (subst (λ l. Memᴰ r l) (sym (some_inj [] rs e)) m))
gather_sound f (q ∷ qs) rs r e m =
    let (xs, ys, h, g, j) = both-some (f q) (gather f qs) rs e in
    elim (Memᴰ.append_cases xs (subst (λ l. Memᴰ r l) (sym j) m)) [
      | inl m' ↦ (q, Memᴰ.head refl, (xs, h, m'))
      | inr m' ↦ let (q', n, found) = gather_sound f qs ys r g m' in (q', Memᴰ.tail n, found)
    ]

-- And each pin that one of them gives is gathered.
gather_complete :
    (f : Pin → Option (List Pin)) (q : Pin) (qs rs : List Pin)
    → gather f qs ≡ some rs
    → Memᴰ q qs
    → (xs : List Pin) × (f q ≡ some xs) × ((r : Pin) → Memᴰ r xs → Memᴰ r rs)
gather_complete f q [] rs e m = absurd (Memᴰ.not-nil m)
gather_complete f q (p ∷ qs) rs e m =
    let (xs, ys, h, g, j) = both-some (f p) (gather f qs) rs e in
    elim (Memᴰ.cases_cons m) [
      | inl same ↦ (
        xs,
        subst (λ p. f p ≡ some xs) (sym same) h,
        λ r n. subst (λ l. Memᴰ r l) j (Memᴰ.append_left ys n),
      )
      | inr m' ↦
          let (zs, k, all_of) = gather_complete f q qs ys g m' in
          (zs, k, λ r n. subst (λ l. Memᴰ r l) j (Memᴰ.append_right xs (all_of r n)))
    ]

from_complete :
    (f : Pin → Option (List Pin)) (p q r : Pin) (ts rs : List Pin)
    → ((xs : List Pin) → f q ≡ some xs → Memᴰ r xs)
    → from_targets f p ts ≡ some rs
    → Memᴰ q ts
    → Memᴰ r rs
from_complete f p q r [] rs ih e m = absurd (Memᴰ.not-nil m)
from_complete f p q r (t ∷ ts) rs ih e m =
    let (xs, k, all_of) = gather_complete f q (t ∷ ts) rs e m in all_of r (ih xs k)

module _ (es : List Edge) where
  from_sound :
      (f : Pin → Option (List Pin)) (p : Pin) (ts rs : List Pin) (r : Pin)
      → ((q : Pin) (xs : List Pin) → f q ≡ some xs → Memᴰ r xs → Leads es q r)
      → targets es p ≡ ts
      → from_targets f p ts ≡ some rs
      → Memᴰ r rs
      → Leads es p r
  from_sound f p [] rs r ih t e m =
      elim (Memᴰ.cases_cons (subst (λ l. Memᴰ r l) (sym (some_inj (p ∷ []) rs e)) m)) [
        | inl same ↦ subst (λ r. Leads es p r) (sym same) (ends t)
        | inr m' ↦ absurd (Memᴰ.not-nil m')
      ]
  from_sound f p (q ∷ qs) rs r ih t e m =
      let (q', n, (xs, h, m')) = gather_sound f (q ∷ qs) rs r e m in
      hop (subst (λ l. Memᴰ q' l) (sym t) n) (ih q' xs h m')

  sound :
      (rounds : ℕ) (p : Pin) (rs : List Pin) (r : Pin)
      → follow rounds es p ≡ some rs
      → Memᴰ r rs
      → Leads es p r
  unfolding follow
  sound zero p rs r e m = absurd (ground arith)
  sound (suc rounds) p rs r e m =
      from_sound (follow rounds es) p (targets es p) rs r (λ q xs. sound rounds q xs r) refl e m

  complete :
      (rounds : ℕ) (p r : Pin) (rs : List Pin)
      → follow rounds es p ≡ some rs
      → Leads es p r
      → Memᴰ r rs
  unfolding follow
  complete zero p r rs e l = absurd (ground arith)
  complete (suc rounds) p _ rs e (ends t) =
      subst (λ l. Memᴰ p l) (some_inj (p ∷ []) rs (sym (rw t refl) ∙ e)) (Memᴰ.head refl)
  complete (suc rounds) p r rs e (hop {q = q} m l) =
      from_complete (follow rounds es) p q r (targets es p) rs (λ xs k. complete rounds q r xs k l)
        e m

  -- If `follow` returns, it returns exactly the pins at which a message that leaves `p` ends.
  pub follow-Leads :
      (rounds : ℕ) (p : Pin) (rs : List Pin)
      → follow rounds es p ≡ some rs
      → (r : Pin) → Memᴰ r rs ↔ Leads es p r
  follow-Leads rounds p rs e r = (sound rounds p rs r e, complete rounds p r rs e)

  -- If it returns one pin, that is the one at which the message ends.
  pub follow-one :
      (rounds : ℕ) (p q : Pin)
      → follow rounds es p ≡ some (q ∷ [])
      → (r : Pin) → Leads es p r ↔ (r ≡ q)
  follow-one rounds p q e r = (
    λ l. elim (Memᴰ.cases_cons (complete rounds p r (q ∷ []) e l)) [
      | inl same ↦ same
      | inr m ↦ absurd (Memᴰ.not-nil m)
    ],
    λ same. sound rounds p (q ∷ []) r e (Memᴰ.head same),
  )
