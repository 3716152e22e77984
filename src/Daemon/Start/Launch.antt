-- ===== src/Daemon/Start/Launch.antt =====
-- The daemon starts with what the host gives it, and accepts the host's client.
use mathlib.Core.List.{append_assoc}
use kesharon.Prelude.{
  ℕ, ◌*◌, ◌/◌, ◌%◌, ◌<◌, ◌≡◌, refl, ap, ◌∙◌, String, true, false, Option, none, some, List, [], ◌∷◌,
  ◌++◌, arith, length, is_blank, ok,
}
use kesharon.Ipc.{new_endpoint}
use kesharon.Protocol.Token.{LaunchToken, parse_hex, to_hex, hex_digit}
use kesharon.Protocol.Token.Match.{matches_hex_iff}
use kesharon.Protocol.Token.Parse.{AreBytes, parse_hex-to_hex}
use kesharon.Daemon.Server.Connection.{is_utf8, utf8_from, next_byte, first_byte}
use kesharon.Daemon.Start.{
  read_arguments, line_of, read_line, trim_end_matches, chosen_endpoint, start_process,
  endpoint_made, line_read, token_parsed, daemon_made,
}
use kesharon.Daemon.Session.State.{World}
use kesharon.Host.Client.{DaemonClient, new_with_timeout, new_client}
use kesharon.Host.Launch.{
  LaunchConfiguration, generate, into_client, sidecar_arguments, stdin_token,
}
use kesharon.Host.Remote.{IsAccepted}

-- Characters of one byte behind the blank.
abbrev ArePlain : List ℕ → Type 0
ArePlain [] = Unit
ArePlain (c ∷ cs) = ((32 < c) × (c < 128)) × ArePlain cs

hex_digit-plain : (d : ℕ) → d < 16 → (32 < hex_digit d) × (hex_digit d < 128)
unfolding hex_digit
hex_digit-plain d h = ground arith

to_hex-ArePlain : (bs : List ℕ) → AreBytes bs → ArePlain (to_hex bs)
unfolding to_hex
to_hex-ArePlain [] h = tt
to_hex-ArePlain (b ∷ bs) (h, k) = (
  hex_digit-plain (b / 16) (omega (arith, h)),
  (hex_digit-plain (b % 16) (omega (arith, h)), to_hex-ArePlain bs k),
)

length-to_hex : (bs : List ℕ) → length (to_hex bs) ≡ length bs * 2
unfolding to_hex
length-to_hex [] = refl
length-to_hex (b ∷ bs) = omega (arith, length-to_hex bs)

plain-is_utf8 : (cs : List ℕ) → ArePlain cs → is_utf8 cs ≡ true
unfolding is_utf8 utf8_from next_byte first_byte
plain-is_utf8 [] h = refl
plain-is_utf8 (c ∷ cs) (h, k) = ground (arith, h, plain-is_utf8 cs k)

ended-is_utf8 : (cs : List ℕ) → ArePlain cs → is_utf8 (cs ++ b'\n' ∷ []) ≡ true
unfolding is_utf8 utf8_from next_byte first_byte
ended-is_utf8 [] h = refl
ended-is_utf8 (c ∷ cs) (h, k) = ground (arith, h, ended-is_utf8 cs k)

line_of-plain : (cs more : List ℕ) → ArePlain cs → line_of (cs ++ b'\n' ∷ more) ≡ cs ++ b'\n' ∷ []
unfolding line_of
line_of-plain [] more h = refl
line_of-plain (c ∷ cs) more (h, k) = ground (arith, h, line_of-plain cs more k)

trim_end_matches-plain : (cs : List ℕ) → ArePlain cs → trim_end_matches (cs ++ b'\n' ∷ []) ≡ cs
unfolding trim_end_matches
trim_end_matches-plain [] h = refl
trim_end_matches-plain (c ∷ cs) (h, k) = rw (trim_end_matches-plain cs k) (ground (arith, h))

read_line-plain :
    (cs more : List ℕ) → ArePlain cs → read_line (ok (cs ++ b'\n' ∷ more)) ≡ ok (cs ++ b'\n' ∷ [])
unfolding read_line
read_line-plain cs more h = rw (line_of-plain cs more h, ended-is_utf8 cs h) refl

-- The configuration that the host generates of some bytes, the daemon that starts with it, and the client.
abbrev pub IsLaunched :
    {S : Type 0} → (bs : List ℕ) → (value : String) → (more : List ℕ) → World S → Type 0
IsLaunched bs value more w =
    let launch : LaunchConfiguration = record {
      endpoint = record { as_str = value };
      launch_token = to_hex bs;
    } in
    let token : LaunchToken = record { bytes = bs } in
    let client : DaemonClient = record {
      endpoint = launch.endpoint;
      launch_token = to_hex bs;
      io_timeout = 2000;
    } in
    (generate (ok bs) value ≡ ok launch)
    × (start_process (sidecar_arguments launch) (ok (stdin_token launch ++ more)) (ok tt) (ok tt)
          (some w)
        ≡ some (
            ok (record {
              endpoint = launch.endpoint;
              launch_token = token;
              session = w;
              once = false;
            })))
    × (into_client launch ≡ some (ok client))
    × IsAccepted token client.launch_token

module _ (bs : List ℕ) (bytes : AreBytes bs) (full : length bs ≡ 32) where
  abbrev token : LaunchToken
  token = record { bytes = bs }

  pub to_hex-IsAccepted : IsAccepted token (to_hex bs)
  to_hex-IsAccepted = record {
    full = omega (arith, length-to_hex bs, full);
    text = plain-is_utf8 (to_hex bs) (to_hex-ArePlain bs bytes);
    matched = (matches_hex_iff token (to_hex bs) full).1 (parse_hex-to_hex bs bytes full);
  }

  module _ (value : String) (more : List ℕ) (named : is_blank value ≡ false) where
    abbrev launch : LaunchConfiguration
    launch = record { endpoint = record { as_str = value }; launch_token = to_hex bs }

    endpoint_chosen :
        chosen_endpoint ("--endpoint" ∷ value ∷ []) ≡ ok (record { as_str = value }, false)
    unfolding chosen_endpoint read_arguments new_endpoint
    endpoint_chosen = rw named refl

    host_generated : generate (ok bs) value ≡ ok launch
    unfolding generate new_endpoint
    host_generated = rw named refl

    -- The line of standard input, as `run` reads it.
    line_read_back : read_line (ok (stdin_token launch ++ more)) ≡ ok (to_hex bs ++ b'\n' ∷ [])
    unfolding stdin_token
    line_read_back =
        ap (λ line. read_line (ok line)) (append_assoc (to_hex bs) (b'\n' ∷ []) more)
        ∙ read_line-plain (to_hex bs) more (to_hex-ArePlain bs bytes)

    parsed : parse_hex (trim_end_matches (to_hex bs ++ b'\n' ∷ [])) ≡ some (ok token)
    parsed =
        ap parse_hex (trim_end_matches-plain (to_hex bs) (to_hex-ArePlain bs bytes))
        ∙ parse_hex-to_hex bs bytes full

    started :
        {S : Type 0} (production : Option (World S))
        → start_process
            (sidecar_arguments launch)
            (ok (stdin_token launch ++ more))
            (ok tt)
            (ok tt)
            production
          ≡ daemon_made launch.endpoint false (ok tt) token production
    unfolding start_process sidecar_arguments
    started production =
        ap (endpoint_made (ok (stdin_token launch ++ more)) (ok tt) (ok tt) production)
          endpoint_chosen
        ∙ ap (line_read launch.endpoint false (ok tt) (ok tt) production) line_read_back
        ∙ ap (token_parsed launch.endpoint false (ok tt) (ok tt) production) parsed

    abbrev host_client : DaemonClient
    host_client = record { endpoint = launch.endpoint; launch_token = to_hex bs; io_timeout = 2000 }

    host_client_made : into_client launch ≡ some (ok host_client)
    unfolding into_client new_client new_with_timeout
    host_client_made = rw (parse_hex-to_hex bs bytes full, new_with_timeout) refl

    -- For 32 random bytes and an endpoint that is not blank, the host generates a configuration. A
    -- daemon process that gets its arguments and the line of its token, and that can bind, make its
    -- session and print, starts at this endpoint with this session, to serve until it is stopped, and
    -- the client that the host makes of the configuration goes to the same endpoint with a token that
    -- this daemon accepts.
    pub start_process-generate : {S : Type 0} (w : World S) → IsLaunched bs value more w
    start_process-generate w =
        (host_generated, started (some w), host_client_made, to_hex-IsAccepted)

    -- A daemon process that cannot make its session panics, whatever the host has given it.
    pub start_process-panics :
        {S : Type 0}
        → start_process {S = S}
            (sidecar_arguments launch)
            (ok (stdin_token launch ++ more))
            (ok tt)
            (ok tt)
            none
          ≡ none
    start_process-panics = started none
