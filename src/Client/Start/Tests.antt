-- ===== src/Client/Start/Tests.antt =====
-- A start, with the memory that `malloc` gives.
use i_free_chat.Base.{ℕ, ◌≡◌, Bool, true, Option, none, some, arith}
use i_free_chat.Text.{Bytes}
use i_free_chat.Protocol.{Protocol}
use i_free_chat.Client.{Client}
use i_free_chat.Client.Callbacks.{EntryMallocs}
use i_free_chat.Client.Start.Registered.{IsFeiq}
use i_free_chat.Hash.Table.{Entry}
use i_free_chat.MemPool.{ret}
use i_free_chat.Registry.{Registry, Mallocs}
use i_free_chat.Client.Start.{StartMallocs, Started, init_freechat}
use i_free_chat.Client.Start.Ready.{IsReady, init_freechat-IsReady}
use i_free_chat.Client.Samples.{heap_a, links_a}

abbrev one : Mallocs
one = record { chunk = 500; block = 100000 }

abbrev mallocs_a : StartMallocs
mallocs_a = record {
  client = 100;
  pool = 200;
  mutex = 300;
  group = one;
  group_hash = one;
  user = one;
  user_hash = one;
  category = one;
  category_hash = one;
}

abbrev entries_a : ℕ → Entry
entries_a e = record { key = 0; val = 0 }

abbrev all_valid : Bytes → Bool
all_valid s = true

abbrev no_convert : Bytes → Option Bytes
no_convert s = none

abbrev entry_a : EntryMallocs
entry_a = record {
  cat = one;
  cat_key = one;
  cat_entry = 400;
  cat_row = one;
  user = one;
  user_key = one;
  user_entry = 410;
  parent_row = one;
  user_row = one;
}

abbrev blank_a : Protocol Client
blank_a = record {
  names = λ a. 7;
  build_func = none;
  parse_func = none;
  handle_func = none;
  callbacks = record {
    on_entry = none;
    on_exit = none;
    on_pchat = none;
    on_gchat = none;
    on_sendcheck = none;
  };
}

init_freechat-IsReady_example :
    (s : Started) × (g : Registry) × (u : Registry) × (c : Registry) × (init_freechat all_valid
        no_convert 16 1 500 100000 9 entry_a mallocs_a entries_a links_a 160 links_a
        (some blank_a)
        heap_a
      ≡ ret (some s))
    × IsReady s 160 g u c
    × IsFeiq all_valid no_convert 16 1 500 100000 9 entry_a s.proto
init_freechat-IsReady_example =
    init_freechat-IsReady all_valid no_convert 16 1 500 100000 9 entry_a mallocs_a entries_a links_a
      160 links_a blank_a heap_a (omega arith) (omega arith) (omega arith) (omega arith)
      (omega arith) (omega arith)
