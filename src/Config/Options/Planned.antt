-- ===== src/Config/Options/Planned.antt =====
-- `get_node_options_from_yamls` does what the plan says.
use mathlib.Core.Path.{ap₂, subst}
use lf_autoware.Base.{
  ℕ, ◌+◌, ◌≡◌, ◌≢◌, refl, ap, sym, ◌∙◌, Bool, Option, none, some, List, [], ◌∷◌, ◌++◌, Text, codes,
  arith, Option-cases, Bool-cases, inl, inr, All, append_assoc, append-nil,
}
use lf_autoware.Config.Yaml.{Parameter, Options, global_yaml}
use lf_autoware.Config.Process.{Process, params_path, params_path-injective, file-write_file_self}
use lf_autoware.Config.Options.{NodeOptions, load, all_named, add_yaml, add_yamls}
use lf_autoware.Config.Options.Frame.{
  Frame, Frame-refl, Frame-trans, Frame-rewritten, params_counter-rewritten, target, outcome,
  rewrite_yaml_as_global_lem,
}
use lf_autoware.Config.Options.Plan.{
  Source, flags, Holds, Loader, wanted, IsForeign, source, uses, plan, IsPlanned,
}

wanted-some :
    {D : Type 0} (ld : Loader D) (path root : Text) (cs : List (Text × Text)) (os : Options D)
    → ld path ≡ some os
    → wanted ld ((path, root) ∷ cs) ≡ all_named root os ++ wanted ld cs
unfolding wanted
wanted-some ld path root cs os e = rw (e, wanted) refl

wanted-none :
    {D : Type 0} (ld : Loader D) (path root : Text) (cs : List (Text × Text))
    → ld path ≡ none
    → wanted ld ((path, root) ∷ cs) ≡ wanted ld cs
unfolding wanted
wanted-none ld path root cs e = rw (e, wanted) refl

module _ {D : Type 0} (parse_yaml : Text → Option (Options D)) (show_double : D → Text) where
  plan-some :
      (ld : Loader D) (pid n : ℕ) (path root : Text) (cs : List (Text × Text)) (os : Options D)
      → ld path ≡ some os
      → plan parse_yaml show_double ld pid n ((path, root) ∷ cs)
        ≡ source parse_yaml show_double path pid n (target root os)
          ∷ plan parse_yaml show_double ld pid (n + uses parse_yaml show_double (target root os)) cs
  unfolding plan
  plan-some ld pid n path root cs os e = rw (e, plan) refl

  plan-none :
      (ld : Loader D) (pid n : ℕ) (path root : Text) (cs : List (Text × Text))
      → ld path ≡ none
      → plan parse_yaml show_double ld pid n ((path, root) ∷ cs)
        ≡ plan parse_yaml show_double ld pid n cs
  unfolding plan
  plan-none ld pid n path root cs e = rw (e, plan) refl

  abbrev pub Agrees : Loader D → Process → Text × Text → Type 0
  Agrees ld w c = load parse_yaml show_double c.0 w ≡ ld c.0

  load_frame :
      (path : Text) (w w' : Process)
      → Frame w w'
      → ((n : ℕ) → path ≢ params_path w.pid n)
      → load parse_yaml show_double path w' ≡ load parse_yaml show_double path w
  unfolding load
  load_frame path w w' f h = rw (f.file path (λ n a b. h n), load) refl

  Agrees-frame :
      (ld : Loader D) (w w' : Process) (cs : List (Text × Text))
      → Frame w w'
      → All (IsForeign w.pid) cs
      → All (Agrees ld w) cs
      → All (Agrees ld w') cs
  Agrees-frame ld w w' [] f h a = tt
  Agrees-frame ld w w' ((path, root) ∷ cs) f h a =
      (load_frame path w w' f h.0 ∙ a.0, Agrees-frame ld w w' cs f h.1 a.1)

  abbrev pub IsPlannedHere :
      Loader D → Process → List (Text × Text) → NodeOptions D → NodeOptions D × Process → Type 0
  IsPlannedHere = IsPlanned parse_yaml show_double

  abbrev result : Text → Process → Option (List (Parameter D)) → Text × Process
  result = outcome parse_yaml show_double

  abbrev entry : Text → Process → Option (List (Parameter D)) → Source
  entry path w = source parse_yaml show_double path w.pid w.params_counter

  file-outcome :
      (path : Text) (w : Process) (t : Option (List (Parameter D)))
      → (result path w t).0 ≡ (entry path w t).0
  file-outcome path w none = refl
  file-outcome path w (some ps) = refl

  Frame-outcome :
      (path : Text) (w : Process) (t : Option (List (Parameter D))) → Frame w (result path w t).1
  Frame-outcome path w none = Frame-refl w
  Frame-outcome path w (some ps) = Frame-rewritten (global_yaml show_double ps) w

  counter-outcome :
      (path : Text) (w : Process) (t : Option (List (Parameter D)))
      → (result path w t).1.params_counter ≡ w.params_counter + uses parse_yaml show_double t
  counter-outcome path w none = omega arith
  counter-outcome path w (some ps) = params_counter-rewritten (global_yaml show_double ps) w

  -- What was written stays, whatever later calls write.
  Holds-outcome :
      (path : Text) (w : Process) (t : Option (List (Parameter D))) (w2 : Process)
      → Frame (result path w t).1 w2
      → Holds w2 (entry path w t)
  Holds-outcome path w none w2 f = tt
  Holds-outcome path w (some ps) w2 f =
      let content = global_yaml show_double ps in
      let g = Frame-rewritten content w in
      elim (Bool-cases (w2.can_write (params_path w.pid w.params_counter))) [
        | inr refused ↦ inl refused
        | inl can ↦ inr (
            f.file (params_path w.pid w.params_counter) (λ n a b e. absurd (
              omega (
                arith,
                params_counter-rewritten content w,
                params_path-injective w.pid w.params_counter n (rw g.pid at e),
              )))
            ∙ file-write_file_self (params_path w.pid w.params_counter) content
                (record w { params_counter = w.params_counter + 1 })
                (ap (λ (c : Text → Bool). c (params_path w.pid w.params_counter))
                    (sym (f.can_write ∙ g.can_write))
                  ∙ can))
      ]

  IsPlanned-skip :
      (ld : Loader D) (path root : Text) (cs : List (Text × Text)) (o : NodeOptions D) (w : Process)
      (r : NodeOptions D × Process)
      → ld path ≡ none
      → IsPlannedHere ld w cs o r
      → IsPlannedHere ld w ((path, root) ∷ cs) o r
  IsPlanned-skip ld path root cs o w r e h = record {
    overrides = rw (wanted-none ld path root cs e) h.overrides;
    arguments = rw (plan-none ld w.pid w.params_counter path root cs e) h.arguments;
    holds = rw (plan-none ld w.pid w.params_counter path root cs e) h.holds;
    frame = h.frame;
  }

  -- The state after a file that parses.
  abbrev added : Text → Text → Options D → NodeOptions D → Process → NodeOptions D × Process
  added path root os o w = (
    record {
      overrides = o.overrides ++ all_named root os;
      arguments = o.arguments ++ codes "--params-file" ∷ (result path w (target root os)).0 ∷ [];
    },
    (result path w (target root os)).1,
  )

  IsPlanned-cons :
      (ld : Loader D) (path root : Text) (cs : List (Text × Text)) (o : NodeOptions D) (w : Process)
      (os : Options D) (r : NodeOptions D × Process)
      → ld path ≡ some os
      → IsPlannedHere ld (added path root os o w).1 cs (added path root os o w).0 r
      → IsPlannedHere ld w ((path, root) ∷ cs) o r
  IsPlanned-cons ld path root cs o w os r e ih = record {
    overrides =
        rw (wanted-some ld path root cs os e)
          (ih.overrides ∙ append_assoc o.overrides (all_named root os) (wanted ld cs));
    arguments = rw (plan-some ld w.pid w.params_counter path root cs os e) (
        ih.arguments
        ∙ ap₂ (λ a b. (o.arguments ++ codes "--params-file" ∷ a ∷ []) ++ flags b)
            (file-outcome path w t) moved
        ∙ append_assoc o.arguments (codes "--params-file" ∷ (entry path w t).0 ∷ []) _);
    holds =
        rw (plan-some ld w.pid w.params_counter path root cs os e)
          (Holds-outcome path w t r.1 ih.frame, subst (All (Holds r.1)) moved ih.holds);
    frame = Frame-trans w w1 r.1 f ih.frame;
  }
    where
      t : Option (List (Parameter D))
      t = target root os

      w1 : Process
      w1 = (result path w t).1

      f : Frame w w1
      f = Frame-outcome path w t

      moved :
          plan parse_yaml show_double ld w1.pid w1.params_counter cs
          ≡ plan parse_yaml show_double ld w.pid
              (w.params_counter + uses parse_yaml show_double t)
              cs
      moved = ap₂ (λ a b. plan parse_yaml show_double ld a b cs) f.pid (counter-outcome path w t)

  pub add_yaml-none :
      (path root : Text) (o : NodeOptions D) (w : Process)
      → load parse_yaml show_double path w ≡ none
      → add_yaml parse_yaml show_double path root (o, w) ≡ (o, w)
  unfolding add_yaml
  add_yaml-none path root o w e = rw (e, add_yaml) refl

  add_yaml-some :
      (path root : Text) (o : NodeOptions D) (w : Process) (os : Options D)
      → load parse_yaml show_double path w ≡ some os
      → add_yaml parse_yaml show_double path root (o, w) ≡ added path root os o w
  unfolding add_yaml
  add_yaml-some path root o w os e =
      rw (e, add_yaml)
        (rw (rewrite_yaml_as_global_lem parse_yaml show_double path root w os e) refl)

  pub IsPlanned-add_yamls :
      (ld : Loader D) (cs : List (Text × Text)) (o : NodeOptions D) (w : Process)
      → All (IsForeign w.pid) cs
      → All (Agrees ld w) cs
      → IsPlannedHere ld w cs o (add_yamls parse_yaml show_double cs (o, w))
  unfolding add_yamls
  IsPlanned-add_yamls ld [] o w h a = record {
    overrides = unfold wanted in sym (append-nil o.overrides);
    arguments = unfold plan in sym (append-nil o.arguments);
    holds = unfold plan in tt;
    frame = Frame-refl w;
  }
  IsPlanned-add_yamls ld ((path, root) ∷ cs) o w h a = elim (Option-cases (ld path)) [
    | inl e ↦
        rw (add_yaml-none path root o w (a.0 ∙ e))
          (IsPlanned-skip ld path root cs o w _ e (IsPlanned-add_yamls ld cs o w h.1 a.1))
    | inr (os, e) ↦
        let w1 = (result path w (target root os)).1 in
        let f = Frame-outcome path w (target root os) in
        rw (add_yaml-some path root o w os (a.0 ∙ e)) (
          IsPlanned-cons ld path root cs o w os _ e (
            IsPlanned-add_yamls ld cs (added path root os o w).0 w1
              (subst (λ n. All (IsForeign n) cs) (sym f.pid) h.1)
              (Agrees-frame ld w w1 cs f h.1 a.1)))
  ]
