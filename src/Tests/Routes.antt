-- ===== src/Tests/Routes.antt =====
-- Runs of the reaction of `mission_planner` with numbers as routes.
use lf_autoware.Base.{ℕ, ◌≡◌, refl, false, [], ◌∷◌}
use lf_autoware.Route.{
  idle, Planner, advance, write, mark, reaction, write_route, mark_route, Steps, stop, next, start,
}
use lf_autoware.Base.Sublists.{IsSublist}
use lf_autoware.Route.Order.{twice, outputs-IsSublist-raised}
use lf_autoware.Route.Latest.{
  last, stop_apart, reaction_apart, write_apart, mark_apart, outputs-last, raised_is_lost,
  raised_is_repeated,
}

-- One callback, and the whole reaction.
abbrev polled : Planner ℕ
polled = advance (advance (advance (advance (mark (write 5 (start 0))))))

-- Then one in the midst of the next reaction.
abbrev racing : Planner ℕ
racing = write 7 (advance (advance (mark (write 6 polled))))

polled-Steps : Steps (start 0) polled
unfolding advance write mark
polled-Steps =
    next
      (next
        (next (next (next (next stop (write_route 5 refl)) (mark_route refl)) reaction) reaction)
        reaction)
      reaction

outputs-IsSublist-raised_example : IsSublist racing.outputs (twice racing.raised)
unfolding advance write mark
outputs-IsSublist-raised_example = outputs-IsSublist-raised 0 racing (
    next
      (next (next (next (next polled-Steps (write_route 6 refl)) (mark_route refl)) reaction)
        reaction)
      (write_route 7 refl))

outputs-last_example : last polled.outputs ≡ last polled.raised
unfolding advance write mark
outputs-last_example =
    outputs-last 0 polled
      (reaction_apart (
        reaction_apart
          (reaction_apart (reaction_apart (mark_apart (write_apart 5 stop_apart tt refl) refl)))))
      refl refl refl

raised_is_lost_example :
    (t : Planner ℕ) × Steps (start 0) t
    × (t.pc ≡ idle)
    × (t.in_callback ≡ false)
    × (t.lf_route_is_set ≡ false)
    × (t.raised ≡ 5 ∷ 6 ∷ [])
    × (t.outputs ≡ 5 ∷ [])
raised_is_lost_example = raised_is_lost (start 0) 5 6 refl refl

raised_is_repeated_example :
    (t : Planner ℕ) × Steps (start 0) t × (t.raised ≡ 5 ∷ 6 ∷ []) × (t.outputs ≡ 6 ∷ 6 ∷ [])
raised_is_repeated_example = raised_is_repeated (start 0) 5 6 refl refl
