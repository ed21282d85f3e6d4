-- ===== src/Protocol/Tests.antt =====
-- A protocol whose functions do little.
use i_free_chat.Base.{ℕ, true, false, none, []}
use i_free_chat.MemPool.{ret, Pool}
use i_free_chat.Feiq.{Packet, Msg}
use i_free_chat.Protocol.{Protocol, BuildPacket, ParsePacket, HandleMsg}

abbrev blank : Protocol ℕ
blank = record {
  names = λ a. 0;
  build_func = none;
  parse_func = none;
  handle_func = none;
  callbacks = record {
    on_entry = none;
    on_exit = none;
    on_pchat = none;
    on_gchat = none;
    on_sendcheck = none;
  };
}

abbrev build_a : BuildPacket
build_a m p = ret (none, p)

abbrev parse_a : ParsePacket
parse_a k m = ret (true, m)

abbrev handle_a : HandleMsg ℕ
handle_a cbs m s = ret (m, 7)

abbrev msg_a : Msg
msg_a = record {
  addr = 400;
  data_size = 0;
  mtime = 0;
  command = 0;
  packet_id = 0;
  port = 0;
  avatar_id = 0;
  gpmsg_size = 0;
  gpid = 0;
  text = λ a. 0;
  user_data = 0;
  prev = 0;
  next = 0;
}

abbrev packet_a : Packet
packet_a = record { addr = 100; mtime = 1; ip = 2; port = 3; size = 0; payload = [] }

abbrev pool_a : Pool
pool_a = record { size = 64; quantum = 4; chunks = []; locked = false; mem = λ a. 0 }
