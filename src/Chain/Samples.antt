-- ===== src/Chain/Samples.antt =====
-- A small runtime and small logs, on which the theorems about the chain are applied and the
-- operations run.
use Prim.Native.String.{◌++◌ as ◌⧺◌}
use mathlib.Core.List.Perm
use sentora.Prelude.{
  List, Option, String, [], ap, arith, false, none, refl, some, suc, true, zero, ℕ, ◌*◌, ◌/◌, ◌≡◌,
  ◌≢◌,
}
use sentora.Chain.Commands.{Environment, Event, Write, make_entry}
use sentora.Chain.Entities.{ChainDb, ChainedAuditEntry, Timestamp, instant, iso_text}
use sentora.Chain.Exported.{ReadsIsoformat}
use sentora.Chain.Hasher.{parse_first}
use sentora.Chain.Runtime.{MongoLaws, Runtime}

-- Texts that count: `ticks n` is read back by `count_ticks`.
ticks : ℕ → String
ticks zero = ""
ticks (suc n) = String.◌∷◌ "|" (ticks n)

count_ticks : String → ℕ
count_ticks String.[] = 0
count_ticks (String.◌∷◌ c s) = suc (count_ticks s)

count_ticks-ticks : (n : ℕ) → count_ticks (ticks n) ≡ n
unfolding ticks count_ticks
count_ticks-ticks zero = refl
count_ticks-ticks (suc n) = ap suc (count_ticks-ticks n)

kind_of : Timestamp → String
kind_of (instant t) = "2026-01-01 00:00:00"
kind_of (iso_text s) = "2026-01-01T00:00:00"

unfoldable pub toy : Runtime
unfolding ticks count_ticks kind_of
toy = record {
  sha256 = λ s. String.◌∷◌ "#" s;
  dumps = λ h. ◌⧺◌ h.timestamp (◌⧺◌ h.summary h.previous_hash);
  dumps_entry = λ e. ◌⧺◌ (kind_of e.timestamp) e.summary;
  strftime = λ fmt t. "T";
  strptime = λ fmt s. some (count_ticks s);
  isoformat = ticks;
  format_03d = λ n. "000";
  sort = λ es. es;
  stored_datetime = λ t. t / 1000 * 1000;
}

pub toy-MongoLaws : MongoLaws toy
unfolding toy
toy-MongoLaws = record {
  sort-perm = λ es. Perm.refl es;
  sort_sorted = λ es a. refl;
  keeps_millis = λ t. omega arith;
}

pub toy-ReadsIsoformat : ReadsIsoformat toy
unfolding toy parse_first
toy-ReadsIsoformat = record { parses = λ t. ap some (count_ticks-ticks t) }

pub toy_digest : (s : String) → toy.sha256 s ≢ ""
unfolding toy
toy_digest s e = cc e

abbrev pub event : String → Event
event summary = record {
  domain = "auth";
  action = "auth.login";
  actor = "alice";
  status = "success";
  summary = summary;
  details = "{}";
  tenant_id = none;
}

-- An entry of epoch 0, sealed by the toy hash.
abbrev pub entry : String → ℕ → Option String → ChainedAuditEntry
entry summary sequence previous_hash =
    make_entry toy (event summary) 5 sequence 0 false previous_hash none

abbrev pub first : ChainedAuditEntry
first = entry "start" 0 none

abbrev pub second : ChainedAuditEntry
second = entry "login" 1 (some first.hash)

-- linked to the first entry, two sequences on
abbrev pub later : ChainedAuditEntry
later = entry "logout" 2 (some first.hash)

-- hashed as if it were a genesis entry
abbrev pub loose : ChainedAuditEntry
loose = entry "forged" 1 none

abbrev pub db_of : Option ℕ → Option ℕ → List ChainedAuditEntry → ChainDb
db_of counter epoch_size log = record {
  log = log;
  sequence_counter = counter;
  chain_config = epoch_size;
  last_verification = none;
  exported_epochs = [];
}

abbrev pub environment : (ℕ → Write) → Environment
environment writes = record { acquires = λ k. true; now = 7; writes = writes }
