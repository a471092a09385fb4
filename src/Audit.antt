-- ===== src/Audit.antt =====
-- src/audit_engine.cpp and include/duckpass/audit_engine.h.
pub mod Scan
pub mod Reuse
pub mod Run
pub mod Print
use duckpass.Entropy.{EntropyScore}
use duckpass.Hibp.{HibpResult, Network}
use duckpass.Crypto.Hash.{DigestCalls}
use duckpass.Prelude.{ℕ, Bool, List, Bytes, Option}
use duckpass.Prelude.Result.{Result, Error}

pub record EntryAuditResult : Type 0 where
  pub service : Bytes
  pub username : Bytes
  pub entropy : EntropyScore
  pub hibp : HibpResult
  pub is_reused : Bool
  pub reused_with : List Bytes
  pub is_stale : Bool
  pub last_updated : ℕ

pub record AuditReport : Type 0 where
  pub entries : List EntryAuditResult
  pub total_entries : ℕ
  pub weak_passwords : ℕ
  pub pwned_passwords : ℕ
  pub reused_passwords : ℕ
  pub stale_passwords : ℕ

pub record Config : Type 0 where
  pub check_online : Bool
  pub stale_threshold_seconds : ℕ

-- 1 year
abbrev pub default_config : Config
default_config = record { check_online = Bool.false; stale_threshold_seconds = 31536000 }

-- What a task of `std::async` ends with: it returns, or it throws a `std::exception`, or something else.
pub data Task : Type 0 where
  returns : Task
  throws : Bytes → Task
  throws_unknown : Task

-- What an audit uses of the system. The functions of an index say what happens at that entry.
pub record AuditSystem : Type 0 where
  -- `std::time(nullptr)`
  pub now : ℕ
  -- `EntropyEvaluator::evaluate`
  pub estimate_of : ℕ → Bytes → Result EntropyScore
  -- the hash functions of OpenSSL, and their calls
  pub sha1 : Bytes → Bytes
  pub sha256 : Bytes → Bytes
  pub calls : ℕ → DigestCalls
  -- whether `std::async` throws, and what becomes of its task
  pub launch_failure : ℕ → Option Error
  pub task : ℕ → Task
  pub network : ℕ → Network
  -- what the memory of `result.is_reused` holds when `result` is declared, since nothing initialises it
  pub uninitialized : ℕ → Bool
