-- ===== src/Server/Keys/FromFile.antt =====
-- The key where the argument asks for the key files.
use kinbridge_server.Prelude.{
  ℕ, ◌≡◌, refl, sym, ◌∙◌, Bool, true, false, ap, ◌⊎◌, ◌||◌, String, none, some, string_eq, ◌==◌,
  inl, inr, if◌then◌else◌,
}
use kinbridge_server.Message.{Bytes}
use kinbridge_server.Common.Keys.{
  Crypto, Disk, Io, Generated, exited, returned, gen_sk, AsksForFile,
}
use kinbridge_server.Common.Keys.Stored.{gen_sk-unwritten}
use kinbridge_server.Server.Keys.{ServerKey, keyed, given_key, adopt, choose_key, get_server_sk}

module _ (c : Crypto) where
  adopt-returned :
      (arg key : String) (sk : Bytes) (after : Disk) (x : Generated × Disk)
      → (arg == "") ≡ false
      → adopt c arg x ≡ (keyed key (some sk), after)
      → x ≡ (returned key (some sk), after)
  unfolding adopt
  adopt-returned arg key sk after (exited, d) n e = cc
  adopt-returned arg key sk after (returned pk o, d) n e =
      let found : ◌≡◌ {A = ServerKey × Disk} (keyed pk o, d) (keyed key (some sk), after) =
        ap (λ (b : Bool). (keyed (if b then arg else pk) o, d)) (sym n) ∙ e in
      cc

  not_empty : {arg : String} → (arg ≡ "-") ⊎ (arg ≡ "_") → (arg == "") ≡ false
  not_empty (inl q) = rw q refl
  not_empty (inr q) = rw q refl

  asks : {arg : String} → (arg ≡ "-") ⊎ (arg ≡ "_") → (arg == "" || arg == "-" || arg == "_") ≡ true
  asks (inl q) = rw q refl
  asks (inr q) = rw q refl

  from_file :
      (io : Io) (i : ℕ) (d : Disk) (arg : String)
      → AsksForFile c arg
      → get_server_sk c io i d arg ≡ adopt c arg (gen_sk c io i 0 d)
  unfolding get_server_sk choose_key given_key
  from_file io i d arg (n, q) =
      ap (λ o. choose_key c io i d (given_key c arg o)) n ∙ rw (asks q) refl

  pub rendezvous_generated :
      (io : Io) (i : ℕ) (d after : Disk) (arg key : String) (sk : Bytes)
      → AsksForFile c arg
      → get_server_sk c io i d arg ≡ (keyed key (some sk), after)
      → gen_sk c io i 0 d ≡ (returned key (some sk), after)
  rendezvous_generated io i d after arg key sk a e =
      adopt-returned arg key sk after (gen_sk c io i 0 d) (not_empty a.1)
        (sym (from_file io i d arg a) ∙ e)

  pub unwritten :
      (io : Io) (i : ℕ) (d : Disk) (arg : String)
      → AsksForFile c arg
      → d.secret ≡ none
      → io.creates_public ≡ false
      → get_server_sk c io i d arg ≡ (keyed "" none, d)
  unfolding adopt
  unwritten io i d arg a e f =
      from_file io i d arg a
      ∙ ap (adopt c arg) (gen_sk-unwritten c io i d e f)
      ∙ rw (not_empty a.1) refl
