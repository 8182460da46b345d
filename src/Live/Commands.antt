-- ===== src/Live/Commands.antt =====
-- Counting the commands that terraform was given.
use fptcloud_hc_automation_m.Base.{
  ℕ, ◌+◌, Bool, true, false, List, [], ◌∷◌, ◌≡◌, arith, if◌then◌else◌,
}
use fptcloud_hc_automation_m.Live.{World, Command, Operation, apply, destroy}

abbrev pub is_apply : Operation → Bool
is_apply apply = true
is_apply _ = false

abbrev pub is_destroy : Operation → Bool
is_destroy destroy = true
is_destroy _ = false

abbrev pub tally : (Operation → Bool) → List Command → ℕ
tally p [] = 0
tally p (c ∷ cs) = let rest = tally p cs in if p c.operation then rest + 1 else rest

-- No apply and no destroy stands between two worlds.
pub record IsQuiet (v w : World) : Type 0 where
  pub applies : tally is_apply v.given ≡ tally is_apply w.given
  pub destroys : tally is_destroy v.given ≡ tally is_destroy w.given

pub IsQuiet-trans : (u v w : World) → IsQuiet u v → IsQuiet v w → IsQuiet u w
IsQuiet-trans u v w p q = record {
  applies = omega (arith, p.applies, q.applies);
  destroys = omega (arith, p.destroys, q.destroys);
}
