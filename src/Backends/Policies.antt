-- ===== src/Backends/Policies.antt =====
-- Calls that set the policies of a backend and are answered.
use cloud_provider_osc.Base.{some, List, ◌≡◌, refl, ok}
use cloud_provider_osc.Base.Int.{ℤ}
use cloud_provider_osc.Base.Str.{Str}
use cloud_provider_osc.Osc.{LoadBalancer}
use cloud_provider_osc.Backends.{set_backend_policies}

pub set_backend_policies-ok :
    {S : Type 0} (elb : LoadBalancer S) (name : Str) (port : ℤ) (policies : List Str) (s t : S)
    → elb.set_policies_for_backend_server name (some port) policies s ≡ (ok tt, t)
    → set_backend_policies elb name port policies s ≡ (ok tt, t)
unfolding set_backend_policies
set_backend_policies-ok elb name port policies s t h = rw h refl
