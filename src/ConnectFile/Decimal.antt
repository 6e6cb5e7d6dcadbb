-- ===== src/ConnectFile/Decimal.antt =====
-- `%d` of `fprintf` and `sprintf`.
use peer_to_peer_fileshare.Base.{ℕ, zero, suc, ◌+◌, ◌/◌, ◌%◌, [], ◌∷◌, ◌++◌, ltb, if◌then◌else◌}
use peer_to_peer_fileshare.Base.Int.{ℤ, pos, negsuc}
use peer_to_peer_fileshare.CString.{Text}

-- With one more round than the value, the fuel suffices.
unfoldable pub decimal_fuel : ℕ → ℕ → Text
decimal_fuel zero n = []
decimal_fuel (suc f) n =
    let longer = decimal_fuel f (n / 10) ++ (b'0' + n % 10) ∷ [] in
    if ltb n 10 then (b'0' + n) ∷ [] else longer

unfoldable pub decimal : ℕ → Text
unfolding decimal_fuel
decimal n = decimal_fuel (suc n) n

unfoldable pub print_int : ℤ → Text
unfolding decimal
print_int (pos n) = decimal n
print_int (negsuc n) = b'-' ∷ decimal (suc n)
