-- ===== src/Jit/Leb/Tests.antt =====
-- Runs of the integers of crates/rv64-jit/src/wasm_emit.rs.
use lish.Prelude.{◌≤◌, ◌≡◌, arith, [], ◌∷◌, ◌++◌, length, some}
use lish.Prelude.Int.{negsuc}
use lish.Jit.Leb.{uleb, sleb}
use lish.Jit.Leb.RoundTrip.{read_uleb, read_sleb, read-uleb, read-sleb}

read-uleb_example :
    (read_uleb (uleb [] 624485 ++ (7 ∷ [])) ≡ some (624485, 7 ∷ []))
    × (length (uleb [] 624485) ≤ 10)
read-uleb_example = read-uleb 624485 (7 ∷ []) (omega arith)

-- -123456.
read-sleb_example :
    (read_sleb (sleb [] (negsuc 123455) ++ (7 ∷ [])) ≡ some (negsuc 123455, 7 ∷ []))
    × (length (sleb [] (negsuc 123455)) ≤ 10)
read-sleb_example = read-sleb (negsuc 123455) (7 ∷ []) (omega arith)
