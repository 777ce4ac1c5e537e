-- ===== src/SecurityGroup/Ensure/Attempts.antt =====
-- How often `ensureSecurityGroup` tries to create the group, and what it does with one that is there.
use cloud_provider_osc.Base.{
  ℕ, zero, suc, true, false, none, some, [], ◌≡◌, refl, inl, inr, Bool-cases, if◌then◌else◌, ◌!=◌,
  list_eq, nat_eq, ok, err, Error,
}
use cloud_provider_osc.Base.Dict.{Dict}
use cloud_provider_osc.Base.Str.{Str}
use cloud_provider_osc.Cloud.{Cloud}
use cloud_provider_osc.SecurityGroup.{is_conflict}
use cloud_provider_osc.SecurityGroup.Ensure.{
  by_name, create_group, ensure_attempt, ensure_loop, ensure_security_group,
}

module _ {S : Type 0} (c : Cloud S) where
  abbrev pub times : ℕ → (S → S) → S → S
  times zero f s = s
  times (suc n) f s = times n f (f s)

  -- A service that has no group of the name and answers every creation with one error.
  abbrev pub Refuses : Str → Str → Error → (S → S) → Type 0
  Refuses name description e after =
      ((s : S) → c.compute.read_security_groups (by_name c name) s ≡ (ok [], s))
      × ((s : S)
          → c.compute.create_security_group (if c.vpc_id != [] then some c.vpc_id else none) name
              description s
            ≡ (err e, after s))

  loop_refused :
      (name description : Str) (additional : Dict Str Str) (e : Error) (after : S → S) (n : ℕ)
      (s : S)
      → Refuses name description e after
      → is_conflict c e ≡ true
      → ensure_loop c name description additional n s ≡ (err e, times (suc n) after s)
  unfolding ensure_loop ensure_attempt create_group
  loop_refused name description additional e after zero s h conflict = rw (h.0 s) (rw (h.1 s) refl)
  loop_refused name description additional e after (suc n) s h conflict = rw (h.0 s) (
      rw (h.1 s)
        (rw conflict (loop_refused name description additional e after n (after s) h conflict)))

  loop_refused_once :
      (name description : Str) (additional : Dict Str Str) (e : Error) (after : S → S) (n : ℕ)
      (s : S)
      → Refuses name description e after
      → is_conflict c e ≡ false
      → ensure_loop c name description additional n s ≡ (err e, after s)
  unfolding ensure_loop ensure_attempt create_group
  loop_refused_once name description additional e after zero s h other =
      rw (h.0 s) (rw (h.1 s) refl)
  loop_refused_once name description additional e after (suc n) s h other =
      rw (h.0 s) (rw (h.1 s) (rw other refl))

  -- Where the group is never found and its creation always fails with one error, the loop ends with
  -- that error: after 30 creations if the error is a conflict, and after one if it is not.
  pub ensure_security_group-refused :
      (name description : Str) (additional : Dict Str Str) (e : Error) (after : S → S) (s : S)
      → Refuses name description e after
      → ensure_security_group c name description additional s
        ≡ (err e, if is_conflict c e then times 30 after s else after s)
  unfolding ensure_security_group
  ensure_security_group-refused name description additional e after s h =
      elim (Bool-cases (is_conflict c e)) [
        | inl conflict ↦
            rw conflict (loop_refused name description additional e after 29 s h conflict)
        | inr other ↦ rw other (loop_refused_once name description additional e after 29 s h other)
      ]
