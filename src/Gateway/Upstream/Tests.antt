-- ===== src/Gateway/Upstream/Tests.antt =====
-- A request that is answered, and a late second message for it.
use remote_devbox_mcp.Base.{false, [], ◌∷◌, none, some, codes}
use remote_devbox_mcp.Gateway.Upstream.{message, Cycle}

abbrev idle : Cycle
idle = record {
  child = record { next_id = 1; pending = []; answered = []; dead = false; closed = false };
  holder = none;
}

abbrev answered : Cycle
answered = record {
  child = record {
    next_id = 2;
    pending = [];
    answered = (1, message (codes "pong")) ∷ [];
    dead = false;
    closed = false;
  };
  holder = some 1;
}
