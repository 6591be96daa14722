-- ===== src/Server/Commands/Tables.antt =====
-- The commands ip-blocker and ip-changes: what they clean up, show and remove.
use Prim.Native.String.{◌++◌ as append}
use kinbridge_server.Prelude.{
  ℕ, ◌+◌, ◌^◌, Bool, false, ◌&&◌, ◌||◌, String, List, [], ◌∷◌, Option, none, some, if◌then◌else◌,
  ◌==◌, string_eq, leb, ltb, length, take, drop,
}
use kinbridge_server.Prelude.Int.{ℤ, pos, negsuc}
use kinbridge_server.Dict.{Dict, lookup, remove, retain}
use kinbridge_server.Net.{IpAddr}
use kinbridge_server.Time.{elapsed_secs}
use kinbridge_server.Common.Number.{show_nat, parse_i32}
use kinbridge_server.Blocker.{IpBlock, IpBlockMap, ip_block_dur, day_seconds}
use kinbridge_server.Server.State.{IpChange}

-- What the code prints by `{:?}`, and the parsing of an IP address; `calendar now tm` is the RFC 3339 text of the time `tm`, seen from the time `now`.
pub record Texts : Type 0 where
  pub parse_ip : String → Option IpAddr
  pub debug_text : String → String
  pub debug_map : Dict String ℕ → String
  pub calendar : ℕ → ℕ → String

abbrev ip_change_dur_x2 : ℕ
ip_change_dur_x2 = 360

-- `for i in 0..(start + 10)` over an iterator, without the first `start`: ten entries. A sum above
-- the largest i32 wraps to a negative number, in a release build, and the range is empty.
page {ℓ} : {A : Type ℓ} → ℕ → List A → List A
page start xs = if ltb (start + 10) (2 ^ 31) then take 10 (drop start xs) else []

-- `x.parse::<i32>().unwrap_or(-1)`.
number_of : Option ℤ → ℤ
number_of none = negsuc 0
number_of (some n) = n

is_dash : List String → Bool
is_dash [] = false
is_dash (x ∷ rest) = x == "-"

block_text : ℕ → IpBlock → String
unfolding show_nat elapsed_secs
block_text now b = append (show_nat b.count) (
    append "/" (
      append (show_nat (elapsed_secs now b.count_tm)) (
        append "s " (
          append (show_nat (length b.ids))
            (append "/" (append (show_nat (elapsed_secs now b.ids_tm)) "s\n"))))))

block_row : ℕ → String × IpBlock → String
unfolding block_text
block_row now (ip, b) = append ip (append ": " (block_text now b))

unfoldable pub concat_rows {ℓ} : {A : Type ℓ} → (A → String) → List A → String
concat_rows row [] = ""
concat_rows row (x ∷ xs) = append (row x) (concat_rows row xs)

found_text {ℓ} : {A : Type ℓ} → (A → String) → Option A → String
found_text row none = ""
found_text row (some x) = row x

-- `lock.retain(..)` of ip-blocker: an entry goes when both its times are over.
unfoldable pub clean_blocker : ℕ → IpBlockMap → IpBlockMap
unfolding retain elapsed_secs
clean_blocker now lock =
    retain
      (λ b.
        leb (elapsed_secs now b.count_tm) ip_block_dur
        || leb (elapsed_secs now b.ids_tm) day_seconds)
      lock

-- Any number below 0, as any text that is no number, is the IP address.
blocker_at : ℕ → ℤ → String → List String → IpBlockMap → String × IpBlockMap
unfolding page block_row block_text concat_rows found_text lookup remove is_dash
blocker_at now (negsuc n) ip rest lock =
    (found_text (block_text now) (lookup ip lock), if is_dash rest then remove ip lock else lock)
blocker_at now (pos start) ip rest lock = (concat_rows (block_row now) (page start lock), lock)

blocker_args : ℕ → List String → IpBlockMap → String × IpBlockMap
unfolding blocker_at number_of parse_i32
blocker_args now [] lock = (concat_rows (block_row now) (page 0 lock), lock)
blocker_args now (ip ∷ rest) lock = blocker_at now (number_of (parse_i32 ip)) ip rest lock

unfoldable pub blocker_cmd : ℕ → List String → IpBlockMap → String × IpBlockMap
unfolding clean_blocker blocker_args
blocker_cmd now args lock =
    let cleaned = clean_blocker now lock in
    let (text, after) = blocker_args now args cleaned in
    (append (show_nat (length cleaned)) (append "\n" text), after)

-- `lock.retain(..)` of ip-changes: an id stays that was seen at two IP addresses, for six minutes.
clean_changes : ℕ → Dict String IpChange → Dict String IpChange
unfolding retain elapsed_secs
clean_changes now lock =
    retain (λ v. ltb (elapsed_secs now v.tm) ip_change_dur_x2 && ltb 1 (length v.ips)) lock

module _ (texts : Texts) where
  change_text : ℕ → IpChange → String
  unfolding show_nat elapsed_secs
  change_text now v =
      append (show_nat (elapsed_secs now v.tm)) (append "s " (append (texts.debug_map v.ips) "\n"))

  change_row : ℕ → String × IpChange → String
  unfolding change_text
  change_row now (id, v) = append id (append ": " (change_text now v))

  -- A number above ten million is taken for an id, and for a page too.
  changes_at : ℕ → ℤ → String → List String → Dict String IpChange → String × Dict String IpChange
  unfolding page change_row change_text concat_rows found_text lookup remove is_dash
  changes_at now (negsuc n) id rest lock =
      (found_text (change_text now) (lookup id lock), if is_dash rest then remove id lock else lock)
  changes_at now (pos start) id rest lock =
      if leb start 10_000_000
      then (concat_rows (change_row now) (page start lock), lock)
      else let after = if is_dash rest then remove id lock else lock in
        (
          append (found_text (change_text now) (lookup id lock))
              (concat_rows (change_row now) (page start after)),
          after,
        )

  changes_args : ℕ → List String → Dict String IpChange → String × Dict String IpChange
  unfolding changes_at number_of parse_i32
  changes_args now [] lock = (concat_rows (change_row now) (page 0 lock), lock)
  changes_args now (id ∷ rest) lock = changes_at now (number_of (parse_i32 id)) id rest lock

  unfoldable pub changes_cmd :
      ℕ → List String → Dict String IpChange → String × Dict String IpChange
  unfolding clean_changes changes_args
  changes_cmd now args lock =
      let cleaned = clean_changes now lock in
      let (text, after) = changes_args now args cleaned in
      (append (show_nat (length cleaned)) (append "\n" text), after)
