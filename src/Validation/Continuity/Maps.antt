-- ===== src/Validation/Continuity/Maps.antt =====
-- The maps of findings by report.
use ovl.Base.{
  String, Bool, false, ◌||◌, ◌&&◌, Option, none, some, List, [], ◌∷◌, ◌++◌, ◌≡◌, inl, inr, refl,
  arith, any-append, eq_iff, str_eq, Bool-cases,
}
use ovl.Base.Int.{ℤ}
use ovl.Base.Dict.{Dict, lookup, put, lookup-put}
use ovl.Validation.Finding.{Finding, Findings, has_errors, is_error}
use ovl.Validation.Report.{Report}
use ovl.Validation.Config.{AlternatingGroup, Config}
use ovl.Validation.Continuity.{
  findings_at, append_at, order_step, order_loop, order_groups, same_stage, evaluate_event_ordering,
  Stage, stage_of, mark_all, mark_groups, by_minute, evaluate_timestamp_uniqueness,
}

-- Some entry of `id` holds an error.
abbrev pub entry_errors : String → Dict Findings → Bool
entry_errors id [] = false
entry_errors id ((k, fs) ∷ d) = (str_eq k id && has_errors fs) || entry_errors id d

abbrev Balanced : String → Dict Findings → Type 0
Balanced id d = entry_errors id d ≡ has_errors (findings_at id d)

has_errors-snoc :
    (fs : Findings) (f : Finding)
    → has_errors (fs ++ f ∷ []) ≡ (has_errors fs || is_error f.severity)
has_errors-snoc fs f = ground (arith, any-append (λ (g : Finding). is_error g.severity) fs (f ∷ []))

entry_errors-append_at :
    (id k : String) (f : Finding) (d : Dict Findings)
    → entry_errors id (append_at k f d)
      ≡ ((str_eq k id && is_error f.severity) || entry_errors id d)
unfolding append_at lookup put
entry_errors-append_at id k f [] = ground arith
entry_errors-append_at id k f ((j, w) ∷ d) = elim (Bool-cases (str_eq j k)) [
  | inl e ↦ ground (arith, eq_iff j k, has_errors-snoc w f)
  | inr e ↦ ground (arith, entry_errors-append_at id k f d)
]

errors_at-append_at :
    (id k : String) (f : Finding) (d : Dict Findings)
    → has_errors (findings_at id (append_at k f d))
      ≡ ((str_eq k id && is_error f.severity) || has_errors (findings_at id d))
unfolding append_at
errors_at-append_at id k f d = ground (
  arith,
  lookup-put k id (findings_at k d ++ f ∷ []) d,
  eq_iff k id,
  has_errors-snoc (findings_at k d) f,
)

Balanced-append_at :
    (id k : String) (f : Finding) (d : Dict Findings)
    → Balanced id d
    → Balanced id (append_at k f d)
Balanced-append_at id k f d h =
    ground (arith, entry_errors-append_at id k f d, errors_at-append_at id k f d)

module _ {F : Type 0} (id : String) (cfg : Config F) where
  Balanced-order_step :
      (r : Report F) (stage last : Option Stage) (out : Dict Findings)
      → Balanced id out
      → Balanced id (order_step cfg r stage last out).1
  unfolding order_step
  Balanced-order_step r none last out h = h
  Balanced-order_step r (some s) last out h = elim (Bool-cases (same_stage last s)) [
    | inl e ↦ rw e (Balanced-append_at id r.report_id _ out h)
    | inr e ↦ rw e h
  ]

  Balanced-order_loop :
      (g : AlternatingGroup) (rs : List (Report F)) (last : Option Stage) (out : Dict Findings)
      → Balanced id out
      → Balanced id (order_loop cfg g rs last out)
  unfolding order_loop
  Balanced-order_loop g [] last out h = h
  Balanced-order_loop g (r ∷ rs) last out h =
      let (last', out') = order_step cfg r (stage_of g r.event_type) last out in
      Balanced-order_loop g rs last' out'
        (Balanced-order_step r (stage_of g r.event_type) last out h)

  Balanced-order_groups :
      (chain : List (Report F)) (gs : List AlternatingGroup) (out : Dict Findings)
      → Balanced id out
      → Balanced id (order_groups cfg chain gs out)
  unfolding order_groups
  Balanced-order_groups chain [] out h = h
  Balanced-order_groups chain (g ∷ gs) out h =
      Balanced-order_groups chain gs (order_loop cfg g chain none out)
        (Balanced-order_loop g chain none out h)

  pub Balanced-event_ordering :
      (chain : List (Report F))
      → entry_errors id (evaluate_event_ordering chain cfg)
        ≡ has_errors (findings_at id (evaluate_event_ordering chain cfg))
  unfolding evaluate_event_ordering lookup
  Balanced-event_ordering chain = Balanced-order_groups chain cfg.event_groups [] refl

  Balanced-mark_all :
      (rs : List (Report F)) (out : Dict Findings)
      → Balanced id out
      → Balanced id (mark_all cfg rs out)
  unfolding mark_all
  Balanced-mark_all [] out h = h
  Balanced-mark_all (r ∷ rs) out h =
      Balanced-mark_all rs (append_at r.report_id _ out) (Balanced-append_at id r.report_id _ out h)

  Balanced-mark_groups :
      (gs : List (ℤ × List (Report F))) (out : Dict Findings)
      → Balanced id out
      → Balanced id (mark_groups cfg gs out)
  unfolding mark_groups
  Balanced-mark_groups [] out h = h
  Balanced-mark_groups ((k, []) ∷ gs) out h = Balanced-mark_groups gs out h
  Balanced-mark_groups ((k, a ∷ []) ∷ gs) out h = Balanced-mark_groups gs out h
  Balanced-mark_groups ((k, a ∷ b ∷ rs) ∷ gs) out h =
      Balanced-mark_groups gs (mark_all cfg (a ∷ b ∷ rs) out) (Balanced-mark_all (a ∷ b ∷ rs) out h)

  pub Balanced-timestamp_uniqueness :
      (chain : List (Report F))
      → entry_errors id (evaluate_timestamp_uniqueness chain cfg)
        ≡ has_errors (findings_at id (evaluate_timestamp_uniqueness chain cfg))
  unfolding evaluate_timestamp_uniqueness lookup
  Balanced-timestamp_uniqueness chain = Balanced-mark_groups (by_minute chain []) [] refl
