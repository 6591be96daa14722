-- ===== src/Env/Sample.antt =====
-- A concrete environment for tests: each function is the simplest that meets the laws.
use Prim.Native.Char.{code}
use Prim.Native.String.{String}
use kinbridge_server.Prelude.{
  ℕ, zero, suc, ◌+◌, ◌≡◌, refl, ap, [], ◌∷◌, ◌++◌, ◌*◌, none, some, arith, true,
}
use kinbridge_server.Net.{IpAddr, SocketAddr, v4, v6}
use kinbridge_server.Message.{Bytes}
use kinbridge_server.Env.{Env, MangleLaws, ShowLaws, Ctx}

abbrev codes : String → Bytes
codes String.[] = []
codes (String.◌∷◌ c s) = code c ∷ codes s

abbrev encode_ip : IpAddr → ℕ → Bytes
encode_ip (v4 n) port = 0 ∷ n ∷ port ∷ []
encode_ip (v6 n) port = 1 ∷ n ∷ port ∷ []

abbrev decode_ip : Bytes → SocketAddr
decode_ip (zero ∷ n ∷ port ∷ []) = record { ip = v4 n; port = port }
decode_ip (suc k ∷ n ∷ port ∷ []) = record { ip = v6 n; port = port }
decode_ip _ = record { ip = v4 0; port = 0 }

decode_ip-encode_ip : (i : IpAddr) (p : ℕ) → decode_ip (encode_ip i p) ≡ record { ip = i; port = p }
decode_ip-encode_ip (v4 n) p = refl
decode_ip-encode_ip (v6 n) p = refl

-- A text of n + 1 characters: an even n for an IPv4 address, an odd one for an IPv6 address.
abbrev ticks : ℕ → String
ticks zero = "."
ticks (suc n) = String.◌∷◌ "1" (ticks n)

abbrev show_ip : IpAddr → String
show_ip (v4 n) = ticks (2 * n)
show_ip (v6 n) = ticks (2 * n + 1)

abbrev width : String → ℕ
width String.[] = 0
width (String.◌∷◌ c s) = suc (width s)

width-ticks : (n : ℕ) → width (ticks n) ≡ suc n
width-ticks zero = refl
width-ticks (suc n) = ap suc (width-ticks n)

ticks-inj : (m n : ℕ) → ticks m ≡ ticks n → m ≡ n
ticks-inj m n e = omega (arith, ap width e, width-ticks m, width-ticks n)

show_ip-inj : (a b : IpAddr) → show_ip a ≡ show_ip b → a ≡ b
show_ip-inj (v4 m) (v4 n) e = ground (arith, ticks-inj (2 * m) (2 * n) e)
show_ip-inj (v4 m) (v6 n) e = absurd (omega (arith, ticks-inj (2 * m) (2 * n + 1) e))
show_ip-inj (v6 m) (v4 n) e = absurd (omega (arith, ticks-inj (2 * m + 1) (2 * n) e))
show_ip-inj (v6 m) (v6 n) e = ground (arith, ticks-inj (2 * m + 1) (2 * n + 1) e)

abbrev pub sample_env : Env
sample_env = record {
  encode = λ a. encode_ip a.ip a.port;
  decode = decode_ip;
  try_into_v4 = λ a. a;
  parse_from_bytes = λ b. none;
  id_pk_bytes = λ id pk. codes id ++ pk;
  sign = λ msg sk. msg ++ sk;
  info_to_string = λ ip. ip;
  info_from_str = λ s. some s;
  show_ip = show_ip;
  parse_addr = λ s. none;
  to_socket_addrs = λ s. none;
}

pub sample_env-MangleLaws : MangleLaws sample_env
sample_env-MangleLaws = record {
  decode-encode = λ a. decode_ip-encode_ip a.ip a.port;
  try_into_v4_idem = λ a. refl;
}

pub sample_env-ShowLaws : ShowLaws sample_env
sample_env-ShowLaws = record { show_ip_inj = show_ip-inj }

abbrev pub sample_ctx : ℕ → Ctx
sample_ctx now = record {
  now = now;
  new_guid = 7 ∷ [];
  db_up = true;
  db_accepts = true;
  send_ok = true;
}
