-- ===== src/Buf.antt =====
-- buf/buffer.go: a buffer with room in front of and behind its bytes. What lies in the free room is
-- not modelled: the code writes it before it reads it.
use ntr.Prelude.{
  ℕ, ◌+◌, ◌-◌, Bool, Option, none, some, [], ◌∷◌, ◌++◌, ltb, leb, if◌then◌else◌, length, take, drop,
}
use ntr.Prelude.Bytes.{Bytes}

pub record Buffer : Type 0 where
  pub headroom : ℕ
  pub bytes : Bytes
  pub tailroom : ℕ

abbrev pub default_size : ℕ
default_size = 32768

abbrev pub default_headroom : ℕ
default_headroom = 512

unfoldable pub new_buffer : Buffer
new_buffer = record {
  headroom = default_headroom;
  bytes = [];
  tailroom = default_size - default_headroom;
}

-- `Write`: copies what fits, and whether all did.
unfoldable pub write : Buffer → Bytes → Buffer × Bool
write b p =
    let n = if leb (length p) b.tailroom then length p else b.tailroom in
    (record b { bytes = b.bytes ++ take n p; tailroom = b.tailroom - n }, leb (length p) n)

unfoldable pub write_byte : Buffer → ℕ → Buffer × Bool
write_byte b c =
    if ltb b.tailroom 1
    then (b, Bool.false)
    else (record b { bytes = b.bytes ++ (c ∷ []); tailroom = b.tailroom - 1 }, Bool.true)

-- `ExtendHeader` and the copy into it; none where the slice is out of range, which is a panic.
unfoldable pub prepend : Buffer → Bytes → Option Buffer
prepend b hdr =
    if ltb b.headroom (length hdr)
    then none
    else some (record b { headroom = b.headroom - length hdr; bytes = hdr ++ b.bytes })

unfoldable pub advance : Buffer → ℕ → Buffer
advance b n = record b { headroom = b.headroom + n; bytes = drop n b.bytes }
