-- ===== src/Parser/Tests.antt =====
-- commands/parser.rs: runs on `PING` and `GET k`.
use redrum_db.Base.{◌≡◌, refl, true, false, [], ◌∷◌, ◌++◌, arith}
use redrum_db.Base.Result.{ok, err, panic}
use redrum_db.Base.Text.{codes, line}
use redrum_db.Base.Decimal.{show}
use redrum_db.Parser.{parse_command, normalize_upper}
use redrum_db.Parser.Request.{
  bulk, request, parse_command-request, parse_command-zero_count, normalize_upper-to_upper,
}

request_get_test :
    request (codes "GET") (codes "k" ∷ []) []
    ≡ line "*2" ++ (line "$3" ++ (line "GET" ++ (line "$1" ++ line "k")))
unfolding show
request_get_test = refl

no_command_test : parse_command true (codes "PING") ≡ err (codes "No Command")
unfolding parse_command
no_command_test = refl

parse_command-request_example :
    parse_command true (request (codes "GET") (codes "k" ∷ []) [])
    ≡ ok (record { name = codes "GET"; args = codes "k" ∷ [] })
unfolding show
parse_command-request_example =
    parse_command-request true (codes "GET") (codes "k" ∷ []) [] (omega arith) (omega arith)
      (omega arith)

parse_command-zero_count_example :
    parse_command false (b'*' ∷ b'0' ∷ 13 ∷ 10 ∷ bulk (codes "PING") []) ≡ panic
unfolding show
parse_command-zero_count_example = parse_command-zero_count false (codes "PING") [] (omega arith)

normalize_upper-to_upper_example :
    normalize_upper (codes "ping") (0 ∷ 0 ∷ 0 ∷ 0 ∷ []) ≡ ok (codes "PING")
normalize_upper-to_upper_example = normalize_upper-to_upper (codes "ping") (0 ∷ 0 ∷ 0 ∷ 0 ∷ [])
