-- ===== src/Pipeline/Documented.antt =====
-- Services as they are documented: whatever holds with these holds with all that are.
use mathlib.Core.Path.{fun_ext}
use inmoagent.Prelude.{ℕ, Bool, true, false, ◌≡◌, refl, sym, subst, [], ◌∷◌, ◌++◌}
use inmoagent.Pipeline.Store.{JobStatus, absent, finished, delayed, active, Services, IsDocumented}

abbrev set_nx : Bool → Bool × Bool
set_nx false = (true, true)
set_nx true = (false, true)

abbrev remove : JobStatus → JobStatus
remove absent = absent
remove finished = absent
remove (delayed due) = absent
remove (active pc) = active pc

abbrev add : ℕ → JobStatus → JobStatus
add due absent = delayed due
add due finished = finished
add due (delayed due') = delayed due'
add due (active pc) = active pc

abbrev pub documented : Services
documented = record {
  rpush = λ e b. b ++ e ∷ [];
  lrange = λ b. b;
  del_list = λ b. [];
  set_nx = set_nx;
  del_lock = λ l. false;
  remove = remove;
  add = add;
}

pub documented-IsDocumented : IsDocumented documented
documented-IsDocumented = record {
  rpush_last = λ e b. refl;
  lrange_whole = λ b. refl;
  del_list_empties = λ b. refl;
  set_nx_free = refl;
  set_nx_taken = refl;
  del_lock_frees = λ l. refl;
  remove_absent = refl;
  remove_finished = refl;
  remove_delayed = λ due. refl;
  remove_active = λ pc. refl;
  add_absent = λ due. refl;
  add_finished = λ due. refl;
  add_delayed = λ due due'. refl;
  add_active = λ due pc. refl;
}

module _ {svc : Services} (d : IsDocumented svc) where
  set_nx_eq : (l : Bool) → set_nx l ≡ svc.set_nx l
  set_nx_eq false = sym d.set_nx_free
  set_nx_eq true = sym d.set_nx_taken

  remove_eq : (j : JobStatus) → remove j ≡ svc.remove j
  remove_eq absent = sym d.remove_absent
  remove_eq finished = sym d.remove_finished
  remove_eq (delayed due) = sym (d.remove_delayed due)
  remove_eq (active pc) = sym (d.remove_active pc)

  add_eq : (due : ℕ) (j : JobStatus) → add due j ≡ svc.add due j
  add_eq due absent = sym (d.add_absent due)
  add_eq due finished = sym (d.add_finished due)
  add_eq due (delayed due') = sym (d.add_delayed due due')
  add_eq due (active pc) = sym (d.add_active due pc)

  pub documented_eq : documented ≡ svc
  documented_eq = λ i. record {
    rpush = fun_ext (λ e. fun_ext (λ b. sym (d.rpush_last e b))) i;
    lrange = fun_ext (λ b. sym (d.lrange_whole b)) i;
    del_list = fun_ext (λ b. sym (d.del_list_empties b)) i;
    set_nx = fun_ext set_nx_eq i;
    del_lock = fun_ext (λ l. sym (d.del_lock_frees l)) i;
    remove = fun_ext remove_eq i;
    add = fun_ext (λ due. fun_ext (add_eq due)) i;
  }

  -- To prove a statement for all documented services.
  pub for_documented : (P : Services → Type 0) → P documented → P svc
  for_documented P h = subst P documented_eq h
