-- ===== src/Daemon/Server/Authentic.antt =====
-- A request that is read has come behind the daemon's token.
use mathlib.Core.List.{append_assoc}
use kesharon.Prelude.{
  ℕ, ◌≡◌, refl, ap, sym, ◌∙◌, String, true, false, some, List, ◌++◌, length, Result, ok, err,
  map_err, Bool-cases, Option-cases, inl, inr,
}
use kesharon.Ipc.{Answer, Call, returned, waiting, read_exact}
use kesharon.Ipc.Read.{content, IsRead, read_exact-IsRead}
use kesharon.Protocol.Error.{ProtocolError}
use kesharon.Protocol.Frame.{Json, decode_client_request_frame}
use kesharon.Protocol.Request.{ClientRequest}
use kesharon.Protocol.Token.{LaunchToken, matches_hex}
use kesharon.Daemon.Server.{DaemonError, protocol, validate_frame_size}
use kesharon.Daemon.Server.Connection.{
  Reading, finished, waits, panicked, after_read, declared_in, is_utf8, check_token, read_body,
  read_prefix, read_authenticated_request,
}

-- What holds of a request that has been read.
abbrev pub OnRequest : (ClientRequest → Type 0) → Reading ClientRequest → Type 0
OnRequest P waits = Unit
OnRequest P panicked = Unit
OnRequest P (finished (err e) rest) = Unit
OnRequest P (finished (ok request) rest) = P request

module _ (requests : Json ClientRequest) (launch_token : LaunchToken) where
  -- The answers begin with a token that is the daemon's, and then a frame that decodes to the request.
  abbrev pub IsAuthentic : List Answer → ClientRequest → Type 0
  IsAuthentic answers request =
      (token : List ℕ) × (frame : List ℕ) × (more : List ℕ) × (content answers
        ≡ token ++ (frame ++ more))
      × (length token ≡ 64)
      × (matches_hex launch_token token ≡ some true)
      × (decode_client_request_frame requests frame ≡ ok request)

  -- The same, of a token and a part of the frame that have been read.
  abbrev Follows : (token prefix : List ℕ) → List Answer → ClientRequest → Type 0
  Follows token prefix answers request =
      (body : List ℕ) × (more : List ℕ) × (content answers ≡ body ++ more)
      × (matches_hex launch_token token ≡ some true)
      × (decode_client_request_frame requests (prefix ++ body) ≡ ok request)

  read-OnRequest :
      (P : ClientRequest → Type 0) (answers : List Answer) (n : ℕ)
      (f : List ℕ → List Answer → Reading ClientRequest)
      → ((bytes : List ℕ) (rest : List Answer)
          → length bytes ≡ n
          → content answers ≡ bytes ++ content rest
          → OnRequest P (f bytes rest))
      → (r : Call (Result (List ℕ) String)) → IsRead answers n r
      → OnRequest P (after_read r f)
  read-OnRequest P answers n f h (returned (ok bytes) rest) (l, c) = h bytes rest l c
  read-OnRequest P answers n f h (returned (err e) rest) k = tt
  read-OnRequest P answers n f h waiting k = tt

  decoded-OnRequest :
      (P : ClientRequest → Type 0) (rest : List Answer) (d : Result ClientRequest ProtocolError)
      → ((request : ClientRequest) → d ≡ ok request → P request)
      → OnRequest P (finished (map_err protocol d) rest)
  decoded-OnRequest P rest (ok request) h = h request refl
  decoded-OnRequest P rest (err e) h = tt

  check_token-Follows :
      (token prefix body : List ℕ) (answers rest : List Answer)
      → content answers ≡ body ++ content rest
      → OnRequest (Follows token prefix answers) (
          check_token requests launch_token token
            (prefix ++ body)
            rest
            (matches_hex launch_token token))
  unfolding check_token
  check_token-Follows token prefix body answers rest c =
      elim (Option-cases (matches_hex launch_token token)) [
        | inl e ↦ rw (e, check_token) tt
        | inr (false, e) ↦ rw (e, check_token) tt
        | inr (true, e) ↦
            rw (e, check_token)
              (decoded-OnRequest (Follows token prefix answers) rest _
                (λ request d. (body, content rest, c, e, d)))
      ]

  read_body-Follows :
      (token prefix : List ℕ) (declared : ℕ) (valid : Result (Unit {0}) DaemonError)
      (answers : List Answer)
      → OnRequest
          (Follows token prefix answers)
          (read_body requests launch_token token prefix declared valid answers)
  unfolding read_body
  read_body-Follows token prefix declared (err e) answers = tt
  read_body-Follows token prefix declared (ok _) answers =
      read-OnRequest (Follows token prefix answers) answers declared _
        (λ body rest l c. check_token-Follows token prefix body answers rest c)
        (read_exact answers declared) (read_exact-IsRead answers declared)

  abbrev Framed : (token : List ℕ) → List Answer → ClientRequest → Type 0
  Framed token answers request =
      (frame : List ℕ) × (more : List ℕ) × (content answers ≡ frame ++ more)
      × (matches_hex launch_token token ≡ some true)
      × (decode_client_request_frame requests frame ≡ ok request)

  OnRequest-map :
      {P Q : ClientRequest → Type 0}
      → ((request : ClientRequest) → P request → Q request)
      → (r : Reading ClientRequest) → OnRequest P r
      → OnRequest Q r
  OnRequest-map f waits h = tt
  OnRequest-map f panicked h = tt
  OnRequest-map f (finished (err e) rest) h = tt
  OnRequest-map f (finished (ok request) rest) h = f request h

  read_prefix-Framed :
      (token : List ℕ) (answers : List Answer)
      → OnRequest (Framed token answers) (read_prefix requests launch_token token answers)
  unfolding read_prefix
  read_prefix-Framed token answers =
      read-OnRequest (Framed token answers) answers 4 _
        (λ prefix rest l c.
          OnRequest-map
            (λ request (body, more, c', m, d). (
              prefix ++ body,
              more,
              c ∙ ap (λ xs. prefix ++ xs) c' ∙ sym (append_assoc prefix body more),
              m,
              d,
            ))
            (read_body requests launch_token token prefix (declared_in prefix)
              (validate_frame_size (declared_in prefix)) rest)
            (read_body-Follows token prefix (declared_in prefix)
              (validate_frame_size (declared_in prefix)) rest))
        (read_exact answers 4) (read_exact-IsRead answers 4)

  -- A request that has been read came in a frame behind 64 bytes that are the daemon's token.
  pub read_authenticated_request-IsAuthentic :
      (answers : List Answer)
      → OnRequest (IsAuthentic answers) (read_authenticated_request requests launch_token answers)
  unfolding read_authenticated_request
  read_authenticated_request-IsAuthentic answers =
      read-OnRequest (IsAuthentic answers) answers 64 _
        (λ token rest l c. elim (Bool-cases (is_utf8 token)) [
          | inr e ↦ rw e tt
          | inl e ↦ rw e (
              OnRequest-map
                (λ request (frame, more, c', m, d).
                  (token, frame, more, c ∙ ap (λ xs. token ++ xs) c', l, m, d))
                (read_prefix requests launch_token token rest) (read_prefix-Framed token rest))
        ])
        (read_exact answers 64) (read_exact-IsRead answers 64)
