-- ===== src/DnsController/Sample.antt =====
-- A stand-in for net.ParseIP: whether a text has digits and dots only.
use Prim.Native.Char.{code}
use oooi.Prelude.{String, Bool, true, ◌&&◌, ◌||◌, ◌==◌, leb}

unfoldable pub dotted : String → Bool
dotted String.[] = true
dotted (String.◌∷◌ c s) =
    let rest = dotted s in (code c == 46 || leb 48 (code c) && leb (code c) 57) && rest
