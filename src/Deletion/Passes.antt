-- ===== src/Deletion/Passes.antt =====
-- The loop that deletes security groups while their load balancer is being deleted.
use Prim.Native.Nat.{◌*◌}
use cloud_provider_osc.Base.{
  ℕ, zero, suc, ◌+◌, ◌-◌, ◌≤◌, ◌<◌, true, false, List, [], ◌∷◌, ◌≡◌, refl, ◌∙◌, arith,
  if◌then◌else◌, leb, ltb, Bool-cases, inl, inr, ok, err, Error, M,
}
use cloud_provider_osc.Base.Str.{Str}
use cloud_provider_osc.Cloud.{Cloud}
use cloud_provider_osc.Deletion.{
  second, most_passes, is_dependency, delete_pass, timed_out, delete_loop, delete_all,
}

module _ {S : Type 0} (c : Cloud S) (now : M S ℕ) (sleep : ℕ → M S (Unit {0})) where
  -- A service where the groups are in use for some time: the deletions of `pending s` passes still fail
  -- with a conflict, each pass before the next pause. The clock goes on at the pauses.
  pub record SlowService : Type 0 where
    pub pending : S → ℕ
    pub clock : S → ℕ
    pub in_use : Error
    pub slept : ℕ → S → S
    pub removed : Str → S → S
    pub is_conflict : is_dependency c now sleep in_use ≡ true
    pub refuses :
        (id : Str) (s : S) (n : ℕ)
        → pending s ≡ suc n
        → c.compute.delete_security_group id s ≡ (err in_use, s)
    pub deletes :
        (id : Str) (s : S)
        → pending s ≡ zero
        → c.compute.delete_security_group id s ≡ (ok tt, removed id s)
    pub pending-removed : (id : Str) (s : S) → pending (removed id s) ≡ pending s
    pub tells : (s : S) → now s ≡ (ok (clock s), s)
    pub sleeps : (time : ℕ) (s : S) → sleep time s ≡ (ok tt, slept time s)
    pub clock-slept : (time : ℕ) (s : S) → clock (slept time s) ≡ clock s + time
    pub pending-slept : (time : ℕ) (s : S) (n : ℕ) → pending s ≡ suc n → pending (slept time s) ≡ n

  module _ (service : SlowService) where
    abbrev pub remove_all : List Str → S → S
    remove_all [] s = s
    remove_all (id ∷ ids) s = remove_all ids (service.removed id s)

    -- After that many pauses of 10 seconds.
    unfoldable pub wait_all : ℕ → S → S
    wait_all zero s = s
    wait_all (suc n) s = wait_all n (service.slept (10 * second) s)

    pass_in_use :
        (ids : List Str) (s : S) (n : ℕ)
        → service.pending s ≡ suc n
        → delete_pass c now sleep ids s ≡ (ok ids, s)
    unfolding delete_pass
    pass_in_use [] s n h = refl
    pass_in_use (id ∷ ids) s n h =
        rw (service.refuses id s n h) (rw service.is_conflict (rw (pass_in_use ids s n h) refl))

    pass_free :
        (ids : List Str) (s : S)
        → service.pending s ≡ zero
        → delete_pass c now sleep ids s ≡ (ok [], remove_all ids s)
    unfolding delete_pass
    pass_free [] s h = refl
    pass_free (id ∷ ids) s h =
        rw (service.deletes id s h)
          (pass_free ids (service.removed id s) (service.pending-removed id s ∙ h))

    not_late : (time limit : ℕ) → time ≤ limit → ltb limit time ≡ false
    not_late time limit h = ground arith

    late : (time limit : ℕ) → limit < time → ltb limit time ≡ true
    late time limit h = ground arith

    -- A pass in which the groups are in use, before the time limit.
    pass_again :
        (id : Str) (ids : List Str) (passes limit n : ℕ) (s : S)
        → service.clock s ≤ limit
        → service.pending s ≡ suc n
        → delete_loop c now sleep (suc passes) limit (id ∷ ids) s
          ≡ delete_loop c now sleep passes limit (id ∷ ids) (service.slept (10 * second) s)
    unfolding delete_loop
    pass_again id ids passes limit n s early h = rw (pass_in_use (id ∷ ids) s n h) (
        rw (service.tells s)
          (rw (not_late (service.clock s) limit early) (rw (service.sleeps (10 * second) s) refl)))

    loop_ok :
        (id : Str) (ids : List Str) (passes limit n : ℕ) (s : S)
        → n < passes
        → service.clock s + n * (10 * second) ≤ limit + 10 * second
        → service.pending s ≡ n
        → delete_loop c now sleep passes limit (id ∷ ids) s
          ≡ (ok tt, remove_all (id ∷ ids) (wait_all n s))
    unfolding delete_loop wait_all
    loop_ok id ids zero limit n s enough early h = absurd (omega arith)
    loop_ok id ids (suc passes) limit zero s enough early h = rw (pass_free (id ∷ ids) s h) refl
    loop_ok id ids (suc passes) limit (suc n) s enough early h =
        let later = service.slept (10 * second) s in
        let tick = service.clock-slept (10 * second) s in
        pass_again id ids passes limit n s (omega arith) h
        ∙ loop_ok id ids passes limit n later (omega arith) (omega (arith, tick))
            (service.pending-slept (10 * second) s n h)

    loop_late :
        (id : Str) (ids : List Str) (passes limit pauses n : ℕ) (s : S)
        → pauses < passes
        → limit < service.clock s + pauses * (10 * second)
        → service.clock s + pauses * (10 * second) ≤ limit + 10 * second
        → service.pending s ≡ suc (pauses + n)
        → delete_loop c now sleep passes limit (id ∷ ids) s
          ≡ (err (timed_out c now sleep), wait_all pauses s)
    unfolding delete_loop wait_all
    loop_late id ids zero limit pauses n s enough over early h = absurd (omega arith)
    loop_late id ids (suc passes) limit zero n s enough over early h =
        rw (pass_in_use (id ∷ ids) s n (omega arith))
          (rw (service.tells s) (rw (late (service.clock s) limit (omega arith)) refl))
    loop_late id ids (suc passes) limit (suc pauses) n s enough over early h =
        let later = service.slept (10 * second) s in
        let tick = service.clock-slept (10 * second) s in
        pass_again id ids passes limit (suc (pauses + n)) s (omega arith) (omega arith)
        ∙ loop_late id ids passes limit pauses n later (omega arith) (omega (arith, tick))
            (omega (arith, tick))
            (service.pending-slept (10 * second) s (suc (pauses + n)) (omega arith))

    -- Some groups are deleted: all of them, after a pause for each pass in which they are in use, if
    -- these are 61 at most; and if they are more, the call times out after 61 pauses, the groups not
    -- being deleted.
    pub delete_all_lem :
        (id : Str) (ids : List Str) (s : S)
        → delete_all c now sleep (id ∷ ids) s ≡ (
            if leb (service.pending s) 61
            then (ok tt, remove_all (id ∷ ids) (wait_all (service.pending s) s))
            else (err (timed_out c now sleep), wait_all 61 s))
    unfolding delete_all
    delete_all_lem id ids s =
        let limit = service.clock s + 600 * second in
        rw (service.tells s) (elim (Bool-cases (leb (service.pending s) 61)) [
          | inl few ↦
              let bound : service.pending s ≤ 61 = ground arith in
              rw few (
                loop_ok id ids most_passes limit (service.pending s) s (omega arith) (omega arith)
                  refl)
          | inr many ↦
              let bound : 61 < service.pending s = ground arith in
              rw many (
                loop_late id ids most_passes limit 61 (service.pending s - 62) s (omega arith)
                  (omega arith) (omega arith) (omega arith))
        ])
