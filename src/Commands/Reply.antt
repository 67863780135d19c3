-- ===== src/Commands/Reply.antt =====
-- commands/handlers: the parts of the replies that the handlers write.
use redrum_db.Base.{ℕ, List, [], ◌∷◌, ◌++◌, Bytes, length}
use redrum_db.Base.Decimal.{show}
use redrum_db.Base.Text.{crlf, line}

-- `${}\r\n`, the bytes, `\r\n`
abbrev pub bulk_reply : Bytes → Bytes
bulk_reply b = b'$' ∷ (show (length b) ++ (crlf ++ (b ++ crlf)))

-- `:{}\r\n`
abbrev pub integer_reply : ℕ → Bytes
integer_reply n = b':' ∷ (show n ++ crlf)

-- `*{}\r\n`
abbrev pub array_header : ℕ → Bytes
array_header n = b'*' ∷ (show n ++ crlf)

abbrev pub bulk_replies : List Bytes → Bytes
bulk_replies [] = []
bulk_replies (b ∷ bs) = bulk_reply b ++ bulk_replies bs

abbrev pub array_reply : List Bytes → Bytes
array_reply bs = array_header (length bs) ++ bulk_replies bs

abbrev pub null_reply : Bytes
null_reply = line "$-1"

abbrev pub ok_reply : Bytes
ok_reply = line "+OK"

abbrev pub empty_array : Bytes
empty_array = line "*0"
