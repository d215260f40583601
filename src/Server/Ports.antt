-- ===== src/Server/Ports.antt =====
-- The texts that `listen` takes for ports (easyrpc/server/server.hpp).
use easyrpc.Prelude.{◌≡◌, sym, ◌∙◌, ◌⊎◌, inl, inr, Bytes, ltb, Bool-cases, if◌then◌else◌}
use easyrpc.Prelude.Exec.{ok, throw, out_of_range, invalid_argument}
use easyrpc.Asio.{Asio}
use easyrpc.Number.Wrap.{int_limit, wrapped, in_range-some, in_range-ne-invalid, to_u16-with_sign}
use easyrpc.Number.Value.{Numeral, decimal, stoi-Numeral, read-Numeral}
use easyrpc.Server.{Server, listen_texts}

module _ {a : Asio} where
  listen_texts-Numeral :
      (ip text : Bytes) (s : Server a) (n : Numeral text)
      → listen_texts ip text s ≡ (
          if ltb (int_limit n.negative) (decimal n.digits)
          then (throw (out_of_range "stoi"), s)
          else (ok tt, record s { ip = ip; port = wrapped n.negative (decimal n.digits) }))
  unfolding listen_texts
  listen_texts-Numeral ip text s n =
      elim (Bool-cases (ltb (int_limit n.negative) (decimal n.digits))) [
        | inl big ↦ rw (stoi-Numeral text n, in_range-some, big)
        | inr small ↦ rw (
          stoi-Numeral text n,
          in_range-some,
          small,
          to_u16-with_sign n.negative (decimal n.digits) small,
        )
      ]

  -- What `listen` makes of the text of a port. It is either a numeral, that is, blanks, a sign or
  -- none, and digits, with anything behind them, or it is not. A numeral that is no `int` throws
  -- `out_of_range`; any other is taken, negative or not, and the port is its number modulo 2^16. A
  -- text that is no numeral throws `invalid_argument`. Where it throws, the server stays as it was.
  pub listen_texts_wraps :
      (ip text : Bytes) (s : Server a)
      → ((n : Numeral text) × (listen_texts ip text s ≡ (
            if ltb (int_limit n.negative) (decimal n.digits)
            then (throw (out_of_range "stoi"), s)
            else (ok tt, record s { ip = ip; port = wrapped n.negative (decimal n.digits) }))))
        ⊎ ((¬ Numeral text) × (listen_texts ip text s ≡ (throw (invalid_argument "stoi"), s)))
  unfolding listen_texts
  listen_texts_wraps ip text s = elim (read-Numeral text) [
    | inl n ↦ inl (n, listen_texts-Numeral ip text s n)
    | inr bad ↦ inr (
      λ n. in_range-ne-invalid n.negative (decimal n.digits) (sym (stoi-Numeral text n) ∙ bad),
      rw bad,
    )
  ]
