-- ===== src/Federate/Rendezvous/Served.antt =====
-- Whoever connects to a federate connects to one that accepts before it waits itself.
use mathlib.Core.Path.{subst}
use lf_autoware.Base.{
  ℕ, ◌≡◌, ◌⊎◌, inl, inr, refl, sym, ap, ◌∙◌, Bool, true, false, ◌&&◌, ◌||◌, none, some, List, [],
  ◌∷◌, set, get_elem?, all, and_true, ◌==◌, ==_iff, Bool-cases, Option-cases, arith, get_elem?_lt,
  get_elem?-set_self, get_elem?-set_ne, all_sound,
}
use lf_autoware.Federate.Runtime.{
  Call, mutex_init, init_shutdown_mutex, cond_init, connect_to_rti, create_server,
  connect_to_federate, thread_create,
}
use lf_autoware.Federate.Preamble.Defs.{connects?}
use lf_autoware.Federate.Rendezvous.{
  Starting, creates_server, creates_thread, made, Step, make, Steps, stop, next, initial,
}

-- Of a federate that has a server if `b` says so: the thread that accepts connections to the server
-- is started before any connection to another federate is asked for.
abbrev pub accepts_first : Bool → List Call → Bool
accepts_first b [] = false
accepts_first b (create_server n ∷ cs) = accepts_first true cs
accepts_first b (connect_to_federate j ∷ cs) = false
accepts_first b (thread_create ∷ cs) = b || accepts_first b cs
accepts_first b (mutex_init ∷ cs) = accepts_first b cs
accepts_first b (init_shutdown_mutex ∷ cs) = accepts_first b cs
accepts_first b (cond_init ∷ cs) = accepts_first b cs
accepts_first b (connect_to_rti h n ∷ cs) = accepts_first b cs

-- A federate accepts connections, or can make its calls up to the one from which on it does.
abbrev pub WillAccept : Starting → ℕ → Type 0
WillAccept s j =
    (s.accepting j ≡ true)
    ⊎ ((ds : List Call) × (get_elem? s.remaining j ≡ some ds)
        × (accepts_first (s.serving j) ds ≡ true))

pub record IsFree (s : Starting) : Type 0 where
  pub served :
      (k : ℕ) (cs : List Call) (j : ℕ)
      → get_elem? s.remaining k ≡ some cs
      → connects? cs j ≡ true
      → WillAccept s j

connects?-tail :
    (c : Call) (cs : List Call) (j : ℕ) → connects? cs j ≡ true → connects? (c ∷ cs) j ≡ true
connects?-tail (connect_to_federate k) cs j h = ground arith
connects?-tail mutex_init cs j h = h
connects?-tail init_shutdown_mutex cs j h = h
connects?-tail cond_init cs j h = h
connects?-tail (connect_to_rti n m) cs j h = h
connects?-tail (create_server n) cs j h = h
connects?-tail thread_create cs j h = h

-- Making its first call, a federate that will accept starts to or still will.
accepts_first-tail :
    (b : Bool) (c : Call) (cs : List Call)
    → accepts_first b (c ∷ cs) ≡ true
    → ((creates_thread c && b) ≡ true) ⊎ (accepts_first (b || creates_server c) cs ≡ true)
accepts_first-tail true (create_server n) cs h = inr h
accepts_first-tail false (create_server n) cs h = inr h
accepts_first-tail b (connect_to_federate j) cs h = absurd (ground arith)
accepts_first-tail true mutex_init cs h = inr h
accepts_first-tail false mutex_init cs h = inr h
accepts_first-tail true init_shutdown_mutex cs h = inr h
accepts_first-tail false init_shutdown_mutex cs h = inr h
accepts_first-tail true cond_init cs h = inr h
accepts_first-tail false cond_init cs h = inr h
accepts_first-tail true (connect_to_rti n m) cs h = inr h
accepts_first-tail false (connect_to_rti n m) cs h = inr h
accepts_first-tail true thread_create cs h = inl refl
accepts_first-tail false thread_create cs h = inr h

pub some_inj : {A : Type 0} (x y : A) → some x ≡ some y → x ≡ y
some_inj x y e = cc

WillAccept-made :
    (s : Starting) (i : ℕ) (c : Call) (cs : List Call) (j : ℕ)
    → get_elem? s.remaining i ≡ some (c ∷ cs)
    → WillAccept s j
    → WillAccept (made i c cs s) j
WillAccept-made s i c cs j e (inl h) = inl (ground (arith, h))
WillAccept-made s i c cs j e (inr (ds, f, h)) = elim (Bool-cases (j == i)) [
  | inl same ↦
      let at : j ≡ i = (==_iff j i).0 same in
      let first : ds ≡ c ∷ cs = some_inj ds (c ∷ cs) (sym f ∙ ap (get_elem? s.remaining) at ∙ e) in
      elim (accepts_first-tail (s.serving j) c cs
        (subst (λ l. accepts_first (s.serving j) l ≡ true) first h)) [
          | inl creates ↦ inl (ground (arith, creates, same))
          | inr later ↦ inr (
            cs,
            ap (get_elem? (set s.remaining i cs)) at
                ∙ get_elem?-set_self s.remaining i cs (get_elem?_lt s.remaining i (c ∷ cs) e),
            subst (λ b. accepts_first (s.serving j || b) cs ≡ true)
                (now (creates_server c) (j == i) same) later,
          )
        ]
  | inr other ↦ inr (
    ds,
    get_elem?-set_ne s.remaining i j cs (λ at. ground (arith, at, other)) ∙ f,
    subst (λ b. accepts_first b ds ≡ true)
        (elsewhere (s.serving j) (creates_server c) (j == i) other) h,
  )
]
  where
    now : (a b : Bool) → b ≡ true → a ≡ (a && b)
    now a b h = ground arith

    elsewhere : (x a b : Bool) → b ≡ false → x ≡ (x || (a && b))
    elsewhere x a b h = ground arith

-- The calls of a federate after the step are its calls before it, or what is left of them.
remaining-made :
    (s : Starting) (i k : ℕ) (c : Call) (cs ds : List Call)
    → get_elem? s.remaining i ≡ some (c ∷ cs)
    → get_elem? (set s.remaining i cs) k ≡ some ds
    → ((k ≡ i) × (ds ≡ cs)) ⊎ (get_elem? s.remaining k ≡ some ds)
remaining-made s i k c cs ds e f = elim (Bool-cases (k == i)) [
  | inl same ↦
      let at : k ≡ i = (==_iff k i).0 same in
      inl (
        at,
        some_inj ds cs (
            sym f
            ∙ ap (get_elem? (set s.remaining i cs)) at
            ∙ get_elem?-set_self s.remaining i cs (get_elem?_lt s.remaining i (c ∷ cs) e)),
      )
  | inr other ↦
      inr (sym (get_elem?-set_ne s.remaining i k cs (λ at. ground (arith, at, other))) ∙ f)
]

IsFree-Step : (s t : Starting) → Step s t → IsFree s → IsFree t
IsFree-Step s _ (make i c cs e can) h = record {
  served = λ k ds j f connects. elim (remaining-made s i k c cs ds e f) [
    | inl (at, left) ↦ WillAccept-made s i c cs j e (
        h.served i (c ∷ cs) j e
          (connects?-tail c cs j (subst (λ l. connects? l j ≡ true) left connects)))
    | inr before ↦ WillAccept-made s i c cs j e (h.served k ds j before connects)
  ];
}

pub IsFree-Steps : (s t : Starting) → Steps s t → IsFree s → IsFree t
IsFree-Steps s _ stop h = h
IsFree-Steps s _ (next {t} {u} r x) h = IsFree-Step t u x (IsFree-Steps s t r h)

-- Every connection of a list of calls is to a federate that accepts first.
abbrev reaches? : List (List Call) → Call → Bool
reaches? css (connect_to_federate j) = elim (get_elem? css j) [
  | none ↦ false
  | some ds ↦ accepts_first false ds
]
reaches? css _ = true

abbrev all_reach? : List (List Call) → Bool
all_reach? css = all (all (reaches? css)) css

reaches?_sound :
    (css : List (List Call)) (cs : List Call) (j : ℕ)
    → all (reaches? css) cs ≡ true
    → connects? cs j ≡ true
    → (ds : List Call) × (get_elem? css j ≡ some ds) × (accepts_first false ds ≡ true)
reaches?_sound css [] j h connects = absurd (ground arith)
reaches?_sound css (connect_to_federate k ∷ cs) j h connects =
    let (a, rest) = and_true (reaches? css (connect_to_federate k)) _ h in
    elim (Bool-cases (k == j)) [
      | inl same ↦
          let at : k ≡ j = (==_iff k j).0 same in
          elim (Option-cases (get_elem? css k)) [
            | inl n ↦ absurd (ground (arith, a, n))
            | inr (ds, f) ↦ (ds, subst (λ l. get_elem? css l ≡ some ds) at f, ground (arith, a, f))
          ]
      | inr other ↦ reaches?_sound css cs j rest (ground (arith, connects, other))
    ]
reaches?_sound css (mutex_init ∷ cs) j h connects = reaches?_sound css cs j h connects
reaches?_sound css (init_shutdown_mutex ∷ cs) j h connects = reaches?_sound css cs j h connects
reaches?_sound css (cond_init ∷ cs) j h connects = reaches?_sound css cs j h connects
reaches?_sound css (connect_to_rti n m ∷ cs) j h connects = reaches?_sound css cs j h connects
reaches?_sound css (create_server n ∷ cs) j h connects = reaches?_sound css cs j h connects
reaches?_sound css (thread_create ∷ cs) j h connects = reaches?_sound css cs j h connects

pub initial-IsFree : IsFree initial
initial-IsFree = record {
  served = λ k cs j e connects. inr (
      reaches?_sound initial.remaining cs j
        (all_sound (all (reaches? initial.remaining)) initial.remaining k cs all_reach e) connects);
}
  where
    all_reach : all_reach? initial.remaining ≡ true
    all_reach = refl
