-- ===== src/Graph/Pull/Cached.antt =====
-- The branch of `pull_one` (pull/collector.rs) that reads the cache of a node that is not pure.
use nazh.Base.{ℕ, Option, none, some, String, ◌⊎◌, inl, inr, if◌then◌else◌, Dict, lookup}
use nazh.Json.{Value, null}
use nazh.Core.Pin.{block_until_ready, skip, default_value}
use nazh.Core.Cache.{CachedOutput, OutputCache, expired, read, subscribe}
use nazh.Connections.Types.{DateTime}
use nazh.Graph.Pull.{
  PullError, data_pin_cache_empty, data_pin_pull_timeout, missing_cache, PullRequest,
  default_block_timeout_ms,
}

-- what a read of a cache meets: the caches and the clock at the first read, what `rx.borrow()` then sees,
-- and what ends the wait: a change, the end of the channel, or the timeout with its last read
pub data Wakeup (N : Type 0) : Type 0 where
  changed : Option (CachedOutput N) → DateTime → Wakeup N
  closed : Wakeup N
  elapsed : OutputCache N → DateTime → Wakeup N

pub record Moment (N : Type 0) : Type 0 where
  pub caches : Dict (OutputCache N)
  pub now : DateTime
  pub borrowed : Option (CachedOutput N)
  pub borrowed_at : DateTime
  pub wakeup : Wakeup N

module _ {N : Type 0} where
  abbrev timeout_of : PullRequest N → ℕ
  timeout_of request = elim request.block_timeout_ms [
    | none ↦ default_block_timeout_ms
    | some ms ↦ ms
  ]

  -- `EmptyPolicy::BlockUntilReady`, from `rx.borrow()` on
  unfoldable pub wait_for : String → String → PullRequest N → Moment N → PullError ⊎ Value N
  wait_for node pin request moment =
      let pull_timeout = inl (data_pin_pull_timeout node pin (timeout_of request)) in
      elim moment.wakeup [
        | changed (some cached) now ↦
            if expired request.ttl_ms now cached then pull_timeout else inr cached.value
        | changed none now ↦ inl (data_pin_cache_empty node pin)
        | closed ↦ inl (data_pin_cache_empty node pin)
        | elapsed cache now ↦ elim (read pin request.ttl_ms now cache) [
          | some cached ↦ inr cached.value
          | none ↦ pull_timeout
        ]
      ]

  unfoldable pub fall_back :
      String → String → PullRequest N → OutputCache N → Moment N → PullError ⊎ Value N
  fall_back node pin request cache moment = elim request.empty_policy [
    | skip ↦ inr null
    | default_value v ↦ inr v
    | block_until_ready ↦ elim (subscribe pin cache) [
      | none ↦ inl (data_pin_cache_empty node pin)
      | some _ ↦ elim moment.borrowed [
        | none ↦ wait_for node pin request moment
        | some cached ↦
            if expired request.ttl_ms moment.borrowed_at cached
            then wait_for node pin request moment
            else inr cached.value
      ]
    ]
  ]

  -- the branch of `pull_one` for a node that is not pure
  unfoldable pub read_upstream : String → String → PullRequest N → Moment N → PullError ⊎ Value N
  read_upstream node pin request moment = elim (lookup node moment.caches) [
    | none ↦ inl (missing_cache node)
    | some cache ↦ elim (read pin request.ttl_ms moment.now cache) [
      | some cached ↦ inr cached.value
      | none ↦ fall_back node pin request cache moment
    ]
  ]
