-- ===== src/Tests/Link.antt =====
-- A linked server greets, with whatever key.
use frommel.Base.{
  two_at, get_be16, ℕ, ◌≡◌, refl, arith, true, none, some, List, [], ◌∷◌, ◌++◌, codes, replicate,
}
use frommel.Station.{Addr}
use frommel.BinderyIo.Found.{IsText}
use frommel.Gasp.{Reply}
use frommel.Link.{Linked, scan_server, hello, init, handle_hello, handle_packet}
use frommel.Link.Greeting.{handle_packet-hello}

abbrev node : ℕ → Addr
node n = record { net = 1; host = n; port = 0x460 }

abbrev servers : List Linked
servers =
    record { servername = codes "SALES"; host = 5 }
    ∷ record { servername = codes "STOCK"; host = 6 }
    ∷ replicate 6 (record { servername = []; host = 0 })

abbrev welcome : Addr → Reply
welcome addr = record { to = addr; bytes = 0x99 ∷ 0x99 ∷ 0xff ∷ 0xff ∷ 0 ∷ [] }

wrong_node : handle_packet servers (hello (codes "STOCK") 0x1234) 58 (node 5) ≡ some none
unfolding handle_packet hello handle_hello scan_server two_at get_be16
wrong_node = refl

too_short : handle_packet servers (hello (codes "STOCK") 0x1234) 57 (node 6) ≡ some none
unfolding handle_packet hello handle_hello scan_server two_at get_be16
too_short = refl

unknown : handle_packet servers (hello (codes "OTHER") 0x1234) 58 (node 6) ≡ some none
unfolding handle_packet hello handle_hello scan_server two_at get_be16
unknown = refl

greets_both :
    init true (node 5) (codes "SALES") 7 2 servers
    ≡ record { to = node 5; bytes = hello (codes "SALES") 7 }
      ∷ record { to = node 6; bytes = hello (codes "SALES") 7 }
      ∷ []
unfolding init
greets_both = refl

found : scan_server servers (codes "STOCK") ≡ some 1
unfolding scan_server
found = refl

stock-IsText : IsText (codes "STOCK")
stock-IsText = (
  λ e. omega arith,
  (λ e. omega arith, (λ e. omega arith, (λ e. omega arith, (λ e. omega arith, tt)))),
)

handle_packet-hello_example :
    handle_packet servers (hello (codes "STOCK") 0x1234 ++ []) 58 (node 6)
    ≡ some (some (welcome (node 6)))
handle_packet-hello_example =
    handle_packet-hello servers (codes "STOCK") 0x1234 [] (node 6) 1
      (record { servername = codes "STOCK"; host = 6 }) stock-IsText (omega arith) found refl
