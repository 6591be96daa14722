-- ===== src/RelayServer/Commands/Blocking.antt =====
-- Blocking an address by a command.
use Prim.Native.Char.{Char, code}
use Prim.Native.String.{◌∷◌ as cons}
use kinbridge_server.Prelude.{
  ◌≡◌, ◌≢◌, refl, ap, ◌∙◌, Bool, true, false, not, String, List, [], ◌∷◌, eqb, arith, eq_iff, ◌==◌,
  string_eq, beq_refl, Bool-cases, inl, inr,
}
use kinbridge_server.Dict.{contains, insert_new, remove_elem, lookup}
use kinbridge_server.Net.{SocketAddr, is_loopback}
use kinbridge_server.Common.Text.Words.{IsWord, split-space, split-bar, trim_end-word, and_false}
use kinbridge_server.Common.Text.{split, extend, is_whitespace, trim, trim_start, trim_end, words}
use kinbridge_server.Env.{Env}
use kinbridge_server.RelayServer.Commands.{
  Floats, Operated, execute, run_words, check_cmd, add_ips, remove_ips, add_all, remove_all,
}
use kinbridge_server.RelayServer.Access.{blocked, served, handle_connection}

trim_end-cons :
    {c : Char} (s : String)
    → trim_end s ≡ s
    → (s == "") ≡ false
    → trim_end (String.◌∷◌ c s) ≡ String.◌∷◌ c s
unfolding trim_end
trim_end-cons s e n = rw (e, n) refl

cons_text : (c : Char) (s : String) → (cons c s == "") ≡ false
cons_text c s = elim (Bool-cases (cons c s == "")) [
  | inl e ↦ let same : cons c s ≡ "" = (eq_iff (cons c s) "").0 e in cc
  | inr e ↦ e
]

-- A command of two letters with an argument.
abbrev pub command_text : Char → Char → String → String
command_text c d ip = cons c (cons d (cons " " ip))

module _ (c d : Char) (c_shows : is_whitespace (code c) ≡ false) (ip : String) (h : IsWord ip)
    (ne : ip ≢ "") where
  trim-command : trim (command_text c d ip) ≡ command_text c d ip
  unfolding trim trim_start
  trim-command =
      let some_text : (ip == "") ≡ false = ground (arith, eq_iff ip "") in
      rw c_shows (
        trim_end-cons {c = c} (cons d (cons " " ip))
          (trim_end-cons {c = d} (cons " " ip)
            (trim_end-cons {c = " "} ip (trim_end-word ip h) some_text) (cons_text " " ip))
          (cons_text d (cons " " ip)))

  words-command :
      eqb (code c) 32 ≡ false
      → eqb (code d) 32 ≡ false
      → words (command_text c d ip) ≡ cons c (cons d "") ∷ ip ∷ []
  unfolding words split extend
  words-command p q = ap (split b' ') trim-command ∙ rw (p, q, split-space ip h) refl

contains-insert_new : (a : String) (xs : List String) → contains a (insert_new a xs) ≡ true
unfolding insert_new contains
contains-insert_new a xs = elim (Bool-cases (contains a xs)) [
  | inl e ↦ rw (e) e
  | inr e ↦ rw (e, beq_refl a) refl
]

contains-remove_elem : (a : String) (xs : List String) → contains a (remove_elem a xs) ≡ false
unfolding remove_elem contains
contains-remove_elem a [] = refl
contains-remove_elem a (x ∷ xs) = elim (Bool-cases (x == a)) [
  | inl e ↦ rw e (contains-remove_elem a xs)
  | inr e ↦ rw e (rw e (contains-remove_elem a xs))
]

module _ (env : Env) (floats : Floats) (ws : Bool) (addr : SocketAddr) (s : Operated) where
  -- After the command `Ba <ip>`, with the IP address of a client, its connections are refused, and
  -- after `Br <ip>` they are served, whatever the lists were; for a text of an address that has no
  -- white space and no bar, and is not "all".
  pub block_commands :
      let ip = env.show_ip (env.try_into_v4 addr).ip in
      IsWord ip
      → ip ≢ ""
      → ip ≢ "all"
      → is_loopback (env.try_into_v4 addr).ip ≡ false
      → (handle_connection env ws addr (check_cmd floats (command_text "B" "a" ip) s).1.blocklist
          ≡ blocked)
        × (handle_connection env ws addr (check_cmd floats (command_text "B" "r" ip) s).1.blocklist
            ≡ served)
  unfolding check_cmd run_words execute handle_connection lookup add_ips remove_ips add_all
      remove_all
  block_commands w ne na l =
      let ip = env.show_ip (env.try_into_v4 addr).ip in
      let not_all : (ip == "all") ≡ false = ground (arith, eq_iff ip "all") in
      let added = words-command "B" "a" refl ip w ne refl refl in
      let removed = words-command "B" "r" refl ip w ne refl refl in
      (
        rw (added, l, and_false (not ws), split-bar ip w, contains-insert_new ip s.blocklist) refl,
        rw
            (
              removed,
              l,
              and_false (not ws),
              not_all,
              split-bar ip w,
              contains-remove_elem ip s.blocklist,
            )
            refl,
      )
