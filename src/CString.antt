-- ===== src/CString.antt =====
-- C strings as lists of bytes, without the NUL that ends them, and the `printf` family as the
-- server uses it. The constants are those of servidor_handle.h and <netinet/in.h>.
use Prim.Native.Char.{code}
use Prim.Native.String.{String}
use peer_to_peer_fileshare.Base.{
  ℕ, ◌+◌, ◌-◌, ◌≤◌, ◌≡◌, List, [], ◌∷◌, take, take_all, length, length-take, arith,
}

abbrev pub Text : Type 0
Text = List ℕ

-- The bytes of a literal.
abbrev pub codes : String → Text
codes String.[] = []
codes (String.◌∷◌ c s) = code c ∷ codes s

-- BUFFER_SIZE
abbrev pub buffer_size : ℕ
buffer_size = 256

-- MAX_FILEPATH_LENGTH
abbrev pub max_filepath_length : ℕ
max_filepath_length = 256

-- `snprintf(buf, size, "%s", s)` with a positive size: what `buf` holds afterwards.
unfoldable pub snprintf : ℕ → Text → Text
snprintf size s = take (size - 1) s

pub snprintf_fits : (size : ℕ) (s : Text) → length s ≤ size - 1 → snprintf size s ≡ s
unfolding snprintf
snprintf_fits size s h = take_all (size - 1) s h

-- What is written never passes the buffer, its NUL included.
pub snprintf_bound : (size : ℕ) (s : Text) → 1 ≤ size → length (snprintf size s) + 1 ≤ size
unfolding snprintf
snprintf_bound size s h = omega (arith, length-take (size - 1) s)

-- Bytes that a format adds.
abbrev pub slash : ℕ
slash = b'/'

abbrev pub newline : ℕ
newline = 10

abbrev pub space : ℕ
space = 32
