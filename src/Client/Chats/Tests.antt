-- ===== src/Client/Chats/Tests.antt =====
-- A double click on a user, and on a group.
use i_free_chat.Base.{ℕ, ◌≡◌, refl, ◌≢◌, inr, true, false, some, none, [], ◌∷◌, ◌++◌, arith}
use i_free_chat.Base.Memory.{load32, store32}
use i_free_chat.Text.{codes}
use i_free_chat.Dlist.Ring.{IsRing}
use i_free_chat.MemPool.{ret, fault, deadlock, ◌>>=◌, Pool, pool_alloc, pool_free}
use i_free_chat.Registry.{Heap}
use i_free_chat.Registry.Group.{new_group_entry}
use i_free_chat.Feiq.{Msg, Packet, field, data_at}
use i_free_chat.Protocol.{Protocol}
use i_free_chat.Client.{Client, open_chat, close_window, alert, chat_line, present}
use i_free_chat.Client.Views.{release_msg, insert_chat_msg}
use i_free_chat.Client.Waiting.{tray_icon_activated}
use i_free_chat.Client.Waiting.Lost.{quiet}
use i_free_chat.Client.Loop.{Round, null, process_packet}
use i_free_chat.Client.Chats.{
  pchatbox, gchatbox, close_chatbox, contact_treeview_ondoubleclicked,
  group_treeview_ondoubleclicked,
}
use i_free_chat.Client.Chats.Groups.{click-name, close-locks}
use i_free_chat.Client.Chats.Again.{close-waits, overtaken_lost}
use i_free_chat.Client.Samples.{
  client_a, heap_a, msg_a, nodes_a-IsRing, one, pool_a, pool_1, opened_1, freed_2, freed_3,
}

abbrev next_a : Msg
next_a = record msg_a { addr = 1160 }

-- The window's address, 7, is read as the size of the chat.
abbrev pool_c : Pool
pool_c = record opened_1 { chunks = record { start = 1000; free = 144; bound = 0 } ∷ [] }

chat_made : pool_alloc 1 6000 60 pool_a ≡ ret (1140, pool_1)
unfolding pool_alloc
chat_made = refl

chat_freed : pool_free 1140 opened_1 ≡ ret pool_c
unfolding pool_free load32 store32
chat_freed = refl

next_freed : release_msg 1160 next_a opened_1 ≡ ret (freed_2 1160)
unfolding pool_free load32 store32
next_freed = refl

waiting_freed : release_msg 1104 msg_a (freed_2 1160) ≡ ret (freed_3 1160 1104)
unfolding pool_free load32 store32
waiting_freed = refl

close-waits_example :
    (d : Client) × ((contact_treeview_ondoubleclicked (some 7) one 2 700 client_a
        >>= close_chatbox (pchatbox 700) 1140
        >>= insert_chat_msg 700 next_a)
      ≡ ret d)
    × IsRing d.mnodes d.mlist ((1104 ∷ 1120 ∷ []) ++ 1160 ∷ [])
    × ((d.msgs 1160).user_data ≡ 700)
    × ((d.heap.users 700).chatbox ≡ 0)
    × (d.events ≡ [] ++ open_chat 1140 700 ∷ close_window 1140 ∷ alert ∷ [])
close-waits_example =
    close-waits 7 one 2 700 1140 client_a (omega arith) refl (omega arith) pool_1 chat_made
      (omega arith) next_a (1104 ∷ 1120 ∷ []) pool_c nodes_a-IsRing refl chat_freed

overtaken_lost_example :
    (d : Client) × ((contact_treeview_ondoubleclicked (some 7) one 2 700 client_a
        >>= insert_chat_msg 700 next_a
        >>= tray_icon_activated (some 7) one)
      ≡ ret d)
    × IsRing d.mnodes d.mlist (1120 ∷ [])
    × (d.events
        ≡ []
          ++ open_chat 1140 700
            ∷ chat_line 1140 (codes "ann") (field data_at next_a)
            ∷ present 1140
            ∷ quiet (1120 ∷ []))
    × (d.heap.pool ≡ freed_3 1160 1104)
overtaken_lost_example =
    overtaken_lost 7 one 2 700 1140 client_a (omega arith) refl (omega arith) pool_1 chat_made
      (omega arith) (some 7) one next_a 1104 (1120 ∷ []) (freed_2 1160) (freed_3 1160 1104)
      nodes_a-IsRing refl refl next_freed waiting_freed

abbrev pool_g : Pool
pool_g = record pool_a {
  chunks = record { start = 1000; free = 156; bound = 0 } ∷ [];
  mem = store32 1156 44 (λ a. 0);
}

group_made : pool_alloc 1 6000 40 pool_a ≡ ret (1160, pool_g)
unfolding pool_alloc
group_made = refl

click-name_example :
    (h : Heap) × (new_group_entry one (codes "go") [] 5 heap_a ≡ ret (1160, h))
    × (h.pool.mem 1176 ≡ b'g')
    × (load32 h.pool.mem 1176 ≢ 0)
    × (group_treeview_ondoubleclicked true 5000 1160 (record client_a { heap = h }) ≡ fault)
click-name_example =
    click-name true 5000 one b'g' (codes "o") [] 5 1160 pool_g heap_a client_a (omega arith)
      group_made (omega arith)

abbrev protocol_a : Protocol Client
protocol_a = record {
  names = λ a. 0;
  build_func = none;
  parse_func = none;
  handle_func = none;
  callbacks = record {
    on_entry = none;
    on_exit = none;
    on_pchat = none;
    on_gchat = none;
    on_sendcheck = none;
  };
}

abbrev packet_a : Packet
packet_a = record { addr = 100; mtime = 1; ip = 1; port = 2425; size = 0; payload = [] }

abbrev packets_a : ℕ → Packet
packets_a a = packet_a

abbrev round_a : Round
round_a = record { batches = []; shutdown = false; mallocs = one; blank = msg_a; pool = null }

close-locks_example :
    (d : Client) × (close_chatbox (gchatbox 1160) 5000 client_a ≡ ret d)
    × (d.events ≡ [] ++ close_window 5000 ∷ [])
    × (contact_treeview_ondoubleclicked (some 7) one 2 700 d ≡ deadlock)
    × (process_packet protocol_a packets_a round_a (some 100) d ≡ deadlock)
close-locks_example =
    close-locks (some 7) one 2 700 5000 1160 100 protocol_a packets_a round_a client_a (omega arith)
      refl (inr (omega arith), tt) refl (omega arith)
