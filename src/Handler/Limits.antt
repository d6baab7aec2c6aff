-- ===== src/Handler/Limits.antt =====
-- pkg/gossip/handler.go: the bounds on the number of items in a message.
use sonicpeer.Base.{ℕ, ◌*◌, Option, none, some, if◌then◌else◌, ltb, leb}
use sonicpeer.Peer.Split.{soft_limit_items}
use sonicpeer.Protocol.{Error}

-- `hardLimitItems`
abbrev pub hard_limit_items : ℕ
hard_limit_items = soft_limit_items * 4

-- `checkLenLimits`
unfoldable pub check_len_limits : ℕ → Option Error
check_len_limits size =
    if leb size 0
    then some Error.empty_message
    else if ltb hard_limit_items size
    then some Error.msg_too_large
    else none
