-- ===== src/Server/Limiter.antt =====
-- The login limiter: `limiter.allow` of internal/server/security.go. Times are in microseconds; a key
-- that is not in the map has Go's zero entry, which has expired.
pub mod Window
use kasane_mcp.Prelude.{
  ℕ, ◌+◌, Bool, true, false, ◌&&◌, not, List, [], ◌∷◌, Option, none, some, Str, str_eq, ltb, leb,
  is_some, if◌then◌else◌, length,
}
use kasane_mcp.Table.{Table, lookup, modify}

pub record Throttle : Type 0 where
  pub count : ℕ
  pub expires : ℕ

-- `v := l.entries[key]`, and a new window if it has expired.
unfoldable pub window : ℕ → Option Throttle → Throttle
window now none = record { count = 0; expires = now + 900000000 }
window now (some v) =
    if leb v.expires now then record { count = 0; expires = now + 900000000 } else v

-- delete(l.entries, k) for every expired entry
unfoldable pub sweep : ℕ → Table Throttle → Table Throttle
sweep now [] = []
sweep now ((k, v) ∷ l) = let rest = sweep now l in if leb v.expires now then rest else (k, v) ∷ rest

unfoldable pub make_room : ℕ → Table Throttle → Table Throttle
unfolding sweep
make_room now l = if leb 10000 (length l) then sweep now l else l

-- l.entries[key] = v
unfoldable pub put : Str → Throttle → Table Throttle → Table Throttle
put key v l = if is_some (lookup key l) then modify key (λ _. v) l else (key, v) ∷ l

unfoldable pub allow : Str → ℕ → Table Throttle → Bool × Table Throttle
unfolding make_room
allow key now l =
    let v = window now (lookup key l) in
    if leb 10 v.count
    then (false, l)
    else if leb 10000 (length (make_room now l))
    then (false, make_room now l)
    else (true, put key (record v { count = v.count + 1 }) (make_room now l))

-- A sequence of calls: the answers for one key that are `true`, and the entries behind it.
unfoldable pub allowed : Str → List (Str × ℕ) → Table Throttle → ℕ
allowed key [] l = 0
allowed key ((k, now) ∷ calls) l =
    let rest = allowed key calls (allow k now l).1 in
    if str_eq k key && (allow k now l).0 then 1 + rest else rest

unfoldable pub entries_after : List (Str × ℕ) → Table Throttle → Table Throttle
entries_after [] l = l
entries_after ((k, now) ∷ calls) l = entries_after calls (allow k now l).1
