-- ===== src/Mediator/Lifecycle.antt =====
-- Where a session stands: inspection, finalization, and what the planner is told of them.
use entigram.Base.{
  String, Bool, true, false, not, ◌≡◌, refl, sym, ap, ◌∙◌, ◌&&◌, ◌==◌, ◌++◌, if◌then◌else◌, Option,
  none, some, List, [], ◌∷◌, any, contains, keep, map,
}
use entigram.Mediator.{Receipt, SessionState}
use entigram.Mediator.Effects.{Tool}
use mathlib.Core.List.{reverse, reverse-cons, reverse-reverse}

-- the names whose contract advertises an inspection and nothing consequential; the searches of
-- `INSPECTION_TOOL_PATTERN` and `CONSEQUENTIAL_TOOL_PATTERN` over name and description are given
unfoldable pub inspection_tool_names : (Tool → Bool) → (Tool → Bool) → List Tool → List String
inspection_tool_names inspects consequential tools =
    map (λ (t : Tool). t.name) (keep (λ (t : Tool). inspects t && not (consequential t)) tools)

unfoldable pub initial_inspection_pending : List String → SessionState → Bool
initial_inspection_pending [] s = false
initial_inspection_pending (n ∷ ns) s =
    not (any (λ (r : Receipt). contains (n ∷ ns) r.tool_name) s.tool_results)

-- the loop over the receipts from the last one back
unfoldable pub work_follows : String → List Receipt → Bool
work_follows finalizer [] = false
work_follows finalizer (r ∷ rs) =
    let rest = work_follows finalizer rs in
    if not (r.tool_name == finalizer) then true else if r.success then false else rest

unfoldable pub finalization_pending : Option String → SessionState → Bool
unfolding work_follows
finalization_pending none s = false
finalization_pending (some finalizer) s =
    not (finalizer == "") && work_follows finalizer (reverse s.tool_results)

-- the five texts of `completion_guidance`
pub data Guidance : Type 0 where
  silent inspect_first finish_work already_final finalize_last : Guidance

unfoldable pub completion_guidance : Option String → List String → SessionState → Guidance
unfolding initial_inspection_pending finalization_pending
completion_guidance none names s = Guidance.silent
completion_guidance (some finalizer) names s =
    if finalizer == ""
    then Guidance.silent
    else if initial_inspection_pending names s
    then Guidance.inspect_first
    else if finalization_pending (some finalizer) s
    then Guidance.finish_work
    else if contains s.executed_tools finalizer
    then Guidance.already_final
    else Guidance.finalize_last

-- `required_tool_choice` is `"required"`
unfoldable pub required_tool_choice : List String → SessionState → Bool
unfolding initial_inspection_pending
required_tool_choice names s = initial_inspection_pending names s

-- whether work is pending, told forward: other work makes it so, a successful finalization ends it
abbrev pub pending_after : String → Bool → Receipt → Bool
pending_after finalizer p r =
    if not (r.tool_name == finalizer) then true else if r.success then false else p

abbrev pub pending_through : String → Bool → List Receipt → Bool
pending_through finalizer p [] = p
pending_through finalizer p (r ∷ rs) = pending_through finalizer (pending_after finalizer p r) rs

through-append :
    (f : String) (p : Bool) (rs : List Receipt) (r : Receipt)
    → pending_through f p (rs ++ r ∷ []) ≡ pending_after f (pending_through f p rs) r
through-append f p [] r = refl
through-append f p (x ∷ rs) r = through-append f (pending_after f p x) rs r

through-reverse :
    (f : String) (rs : List Receipt) → pending_through f false (reverse rs) ≡ work_follows f rs
unfolding work_follows
through-reverse f [] = refl
through-reverse f (r ∷ rs) =
    ap (pending_through f false) (reverse-cons r rs)
    ∙ (through-append f false (reverse rs) r ∙ ap (λ p. pending_after f p r) (through-reverse f rs))

-- The scan back over the receipts finds what a state kept along the session would say: finalization is
-- pending exactly when other work has been done since the last success of the finalizer, failed
-- finalizations counting for nothing.
pub finalization_pending-through :
    (finalizer : String) (s : SessionState)
    → finalizer == "" ≡ false
    → finalization_pending (some finalizer) s ≡ pending_through finalizer false s.tool_results
unfolding finalization_pending
finalization_pending-through finalizer s h = rw h (
    sym (through-reverse finalizer (reverse s.tool_results))
    ∙ ap (pending_through finalizer false) (reverse-reverse s.tool_results))
