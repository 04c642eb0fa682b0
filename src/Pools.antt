-- ===== src/Pools.antt =====
-- The connection pools of crates/core and crates/qa-svc/src/config: what the modules of PostgreSQL,
-- Redis and Pulsar share. A duration is its seconds.
use qa_sys.Aes.{and_then}
use qa_sys.Prelude.{Result, ◌≡◌, ok, err, ◌↔◌, refl}
pub mod Redis
pub mod Pgsql
pub mod Pulsar
pub mod Opening

pub and_then_iff :
    {E A B : Type 0} (r : Result E A) (k : A → Result E B) (b : B)
    → (and_then r k ≡ ok b) ↔ ((a : A) × (r ≡ ok a) × (k a ≡ ok b))
and_then_iff (ok a) k b = (λ h. (a, refl, h), λ (a', e, h). cc)
and_then_iff (err e) k b = (λ h. cc, λ (a', e', h). cc)
