-- ===== src/Router/Direct.antt =====
-- The number under which `writeOutboundDirect` writes into the container's database.
use paraclaw.Prelude.{◌≡◌, Bool, Text, List, [], any, arith}
use paraclaw.SessionDb.{MessageIn, MessageOut, has_seq}
use paraclaw.Router.{Address, write_outbound_direct}

-- Some inbound and some outbound message have the same number.
abbrev pub clash : List MessageIn → List MessageOut → Bool
clash ins outs = any (λ o. any (has_seq o.seq) ins) outs

-- The reply to a denied command takes a number of the host's: written before the container has
-- sent anything it gets 2, so that it clashes with the inbound message 2 if there is one.
pub clash-write_outbound_direct :
    (ins : List MessageIn) (id timestamp : Text) (addr : Address) (content : Text)
    → clash ins (write_outbound_direct id timestamp addr content []) ≡ any (has_seq 2) ins
unfolding write_outbound_direct
clash-write_outbound_direct ins id timestamp addr content = ground arith
