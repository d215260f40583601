-- ===== src/Tests/Texts.antt =====
-- A function on texts at a concrete input.
use easyrpc.Prelude.{◌≡◌, refl, codes}
use easyrpc.StringUtil.{mem_byte, trim, find_first_not_of, find_last_not_of}

trimmed : trim (codes " a b ") (codes " ") ≡ codes "a b"
unfolding trim find_first_not_of find_last_not_of mem_byte
trimmed = refl
