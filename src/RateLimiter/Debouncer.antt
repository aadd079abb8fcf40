-- ===== src/RateLimiter/Debouncer.antt =====
-- `MessageDebouncer`. Times are in seconds.
pub mod Laws
use open_crank.Prelude.{ltb, if◌then◌else◌, Bytes, ℕ, ◌+◌, Bool, true, false, List, [], ◌∷◌}
use open_crank.Prelude.Maps.{Map, str_key, lookup, contains, insert, lookup-insert, contains-lookup}
use open_crank.Prelude.Maps.Order.{
  Ascending, keys_where, erase_all, lookup-erase_where, erase_all-Ascending, insert-Ascending,
  drop_if,
}

pub record Debouncer : Type 0 where
  pub window_seconds : ℕ
  pub seen_messages : Map Bytes ℕ

abbrev pub make : ℕ → Debouncer
make window = record { window_seconds = window; seen_messages = [] }

-- A window is not negative.
unfoldable pub set_window : Debouncer → ℕ → Debouncer
set_window d seconds = record d { window_seconds = seconds }

-- Older than `now - window_seconds_`, which may be negative in the source.
abbrev pub is_old : ℕ → ℕ → ℕ → Bool
is_old window now t = ltb (t + window) now

unfoldable pub cleanup : Debouncer → ℕ → Debouncer
cleanup d now = record d {
  seen_messages =
      erase_all (keys_where (is_old d.window_seconds now) d.seen_messages) d.seen_messages;
}

-- The clock is read in `cleanup` and again for the record.
unfoldable pub should_process : Debouncer → Bytes → ℕ → ℕ → Debouncer × Bool
should_process d message_id cleaned now =
    let d' = cleanup d cleaned in
    if contains message_id d'.seen_messages
    then (d', false)
    else (record d' { seen_messages = insert message_id now d'.seen_messages }, true)

-- Messages with their two clock readings.
unfoldable pub feed : Debouncer → List (Bytes × (ℕ × ℕ)) → Debouncer
feed d [] = d
feed d ((id, (cleaned, now)) ∷ rest) = feed (should_process d id cleaned now).0 rest
