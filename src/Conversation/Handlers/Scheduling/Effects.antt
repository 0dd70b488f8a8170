-- ===== src/Conversation/Handlers/Scheduling/Effects.antt =====
-- What the proposal of a visit does.
use inmoagent.Prelude.{
  ◌+◌, Option, none, List, [], ◌∷◌, ◌++◌, ◌≡◌, refl, ◌∙◌, ap, arith, length, length-append,
}
use inmoagent.Domain.Property.{Property}
use inmoagent.Domain.Lead.{human_handoff, Appointment, proposed}
use inmoagent.Conversation.Types.{HandlerContext}
use inmoagent.Conversation.World.{Env, World, notify, propose}
use inmoagent.Conversation.Handlers.Scheduling.{enter_scheduling, property_id_of}

-- The appointment that is proposed.
abbrev pub visit : Env → HandlerContext → Option Property → Appointment
visit env ctx property = record {
  id = env.new_id;
  tenant_id = ctx.tenant.id;
  lead_id = ctx.lead.id;
  property_id = property_id_of property;
  status = proposed;
  scheduled_at = none;
  assigned_user_id = none;
  outcome = none;
  notes = none;
}

append-append : {A : Type 0} → (xs : List A) (a b : A) → (xs ++ a ∷ []) ++ b ∷ [] ≡ xs ++ a ∷ b ∷ []
append-append [] a b = refl
append-append (x ∷ xs) a b = ap (λ ys. x ∷ ys) (append-append xs a b)

module _ (env : Env) (ctx : HandlerContext) (property : Option Property) (w : World) where
  -- A proposal adds one appointment, open and without a date, and hands over to a person; the push
  -- for it goes out twice.
  pub enter_scheduling_effects :
      ((enter_scheduling env ctx property w).1.appointments
        ≡ w.appointments ++ visit env ctx property ∷ [])
      × ((enter_scheduling env ctx property w).1.pushes ≡ w.pushes ++ env.new_id ∷ env.new_id ∷ [])
      × ((enter_scheduling env ctx property w).0.next_state ≡ human_handoff)
  unfolding enter_scheduling notify propose
  enter_scheduling_effects =
      (ground arith, ground (arith, append-append w.pushes env.new_id env.new_id), refl)

  pub length-enter_scheduling :
      length (enter_scheduling env ctx property w).1.appointments ≡ length w.appointments + 1
  length-enter_scheduling =
      ap length enter_scheduling_effects.0
      ∙ length-append w.appointments (visit env ctx property ∷ [])
