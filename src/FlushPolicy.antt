-- ===== src/FlushPolicy.antt =====
-- src/flush_policy.rs: whether the transport is flushed behind every record.
use embedded_tls.Prelude.{Bool, true, false}

pub data FlushPolicy : Type 0 where
  relaxed strict : FlushPolicy

unfoldable pub flush_transport : FlushPolicy → Bool
flush_transport relaxed = false
flush_transport strict = true

-- `FlushPolicy::default`
unfoldable pub default : FlushPolicy
default = strict
