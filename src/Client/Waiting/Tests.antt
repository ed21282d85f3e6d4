-- ===== src/Client/Waiting/Tests.antt =====
-- Two messages of one user.
use i_free_chat.Base.{◌≡◌, refl, some, [], ◌∷◌, ◌++◌, arith}
use i_free_chat.Base.Memory.{load32, store32}
use i_free_chat.Text.{codes}
use i_free_chat.Dlist.Ring.{IsRing}
use i_free_chat.MemPool.{ret, ◌>>=◌, pool_alloc, pool_free}
use i_free_chat.Feiq.{field, data_at}
use i_free_chat.Client.{Client, open_chat, chat_line, present}
use i_free_chat.Client.Views.{release_msg}
use i_free_chat.Client.Waiting.{tray_icon_activated}
use i_free_chat.Client.Waiting.Lost.{quiet, tray-second_lost}
use i_free_chat.Client.Samples.{
  client_a, msg_a, nodes_a-IsRing, one, pool_a, pool_1, opened_1, freed_2, freed_3,
}

chat_made : pool_alloc 1 6000 60 pool_a ≡ ret (1140, pool_1)
unfolding pool_alloc
chat_made = refl

first_freed : release_msg 1104 msg_a opened_1 ≡ ret (freed_2 1104)
unfolding pool_free load32 store32
first_freed = refl

second_freed : release_msg 1120 msg_a (freed_2 1104) ≡ ret (freed_3 1104 1120)
unfolding pool_free load32 store32
second_freed = refl

tray-second_lost_example :
    (d : Client) × ((tray_icon_activated (some 7) one client_a >>= tray_icon_activated (some 7) one)
      ≡ ret d)
    × (d.events
        ≡ []
          ++ open_chat 1140 700
            ∷ chat_line 1140 (codes "ann") (field data_at msg_a)
            ∷ present 1140
            ∷ quiet [])
    × IsRing d.mnodes d.mlist []
    × (d.heap.pool ≡ freed_3 1104 1120)
tray-second_lost_example =
    tray-second_lost 7 (some 7) one one client_a 1104 1120 1140 [] pool_1 (freed_2 1104)
      (freed_3 1104 1120) nodes_a-IsRing refl refl refl refl (omega arith) chat_made (omega arith)
      first_freed second_freed
