-- ===== src/Lib.antt =====
-- iFreeChat: the core of the FeiQ chat client in ifc/, and of the older one under src/ that it replaces.
--
-- The program's parts. Two threads of a UDP socket move packets between the network and two message
-- queues; the main loop takes a packet, has the protocol parse it into a message, and hands the
-- message to a callback that keeps users, groups and categories. Packets, queues and tables all take
-- their memory from one pool, whose mutex is the only lock, and link their nodes by circular lists.
--
-- The files and the code that they model:
--   Base      numbers, lists, bits, and memory as bytes at addresses; no code of the program.
--   Dlist     ifc/include/dlist.h: `init_dlist_node`, `dlist_add`, `dlist_add_tail`, `dlist_del`, and
--             the loops `dlist_foreach` and `dlist_foreach_safe`. `Links` is the two link fields of
--             every node.
--   MemPool   ifc/lib/mem_pool/mem_pool.c. `Pool` is `mem_pool_t` with its chunks, its mutex as a
--             flag and the memory; `pool_alloc` and `pool_free` are `mem_pool_alloc` and
--             `mem_pool_free` on a pool that is not NULL. A call ends as an `Outcome`: it returns, it
--             waits for ever on the mutex, or it uses memory that it does not own.
--   Queue     ifc/lib/queue/queue.c; Queue/MsgQueue is ifc/lib/net/msg_queue.c, in the build without
--             `__USE_SIGNAL`, where the consumer polls.
--   Hash      ifc/lib/hash/hash.c: the hash functions (Hash/Code), the keys in memory (Hash/Key), and
--             the table (Hash/Table); Hash/Murmur is ifc/lib/hash/murmurhash.c.
--   Text      what the code uses of the C library on strings.
--   Address   `str2ip` and `ip2str` of ifc/lib/net/utils.c.
--   Feiq      ifc/src/feiq/feiq.c with ifc/lib/net/packet.c, ifc/include/net/packet.h and
--             ifc/include/net/msg.h: packets and messages (Feiq), the packets that are sent
--             (Feiq/Build), the parser (Feiq/Parse), both together (Feiq/Exchange), and what is done
--             before a callback gets the message (Feiq/Handle, with `string_validate` of
--             ifc/lib/encoding/encoding.c, whose calls of glib are parameters). The texts of a
--             message are one region of memory at the offsets of `msg_t`, so that a copy which is
--             too long runs into the next field; one that leaves the structure is a fault.
--   Blowfish  ifc/lib/blowfish/blowfish.c: the block cipher, its key schedule from given digit
--             tables, and the length of the output; Blowfish/Modes is `Encrypt` and `Decrypt`.
--   Registry  ifc/src/user.c, ifc/src/category.c and ifc/src/group.c, over one `Heap` of entries at
--             their addresses: an entry's address also stands for its nodes, and the strings of a
--             user are kept beside the pool's memory.
--   Protocol  ifc/lib/protocol/protocol.c and ifc/include/protocol/protocol.h: `protocol_t` with its
--             functions, over a state that the callbacks change.
--   Socket    ifc/lib/net/udp_socket.c: the socket, and the rounds of its two threads over the pool
--             and the queues that they share.
--   Client    `ifreechat_t` of ifc/include/ifreechat.h: the rows of the contacts and the messages
--             that arrive (Client/Views, ifc/src/ui/user_treeview.c), the click on the icon
--             (Client/Waiting, ifc/src/ui/window.c), the double clicks, the buttons of a chat and
--             the nickname (Client/Chats, the files of ifc/src/ui), the callbacks (Client/Callbacks,
--             ifc/src/handle_message.c and ifc/src/broadcast.c), the start (Client/Start,
--             ifc/src/ifreechat.c), and the loop with the protocol
--             that it uses (Client/Loop, ifc/src/handle_message.c and ifc/src/ifreechat.c).
--             What GTK is called for is a log of events.
--   Emotion   ifc/src/ui/emotion_box.c and the loop of ifc/src/ui/chatbox.c that shows a message
--             with faces; the functions of glib are parameters.
--   Config    ifc/src/config.c, over the document that the XML library reads and saves; what that
--             does with a content that is set and a document that is saved is a parameter.
--   Older     src/: the state with its lists and blocks (Older), users and groups (Older/Users,
--             Older/Groups; src/user.c, src/group.c), the rows of the contacts (Older/Treeview;
--             src/treeview.c, src/category.c), the packets that are sent (Older/Broadcast;
--             src/broadcast.c), the parser (Older/Message), the handlers (Older/Buddy) and their
--             dispatch (Older/Process), all of src/process_msg.c, and the socket with the thread that
--             listens (Older/Socket; src/udp_socket.c, src/ifreechat.c). Every block comes from
--             `malloc`; the texts of users and groups are bytes at addresses in their blocks
--             (Older/Texts), so that a copy which is too long runs into the next text, and one that
--             leaves the block is a fault, as is a text that is read on behind its block. What is
--             the same in both trees (the lists, the cipher, the readers of the version) is shared.
--
-- Bounds and fuel. Sizes and offsets are those of the i686 build that ifc/config.log records:
-- `size_t` has 32 bits, and its wrap-around is written out. What `malloc` returns is an argument, 0
-- for NULL; a theorem that needs a fresh block says so. A loop over a circular list runs on fuel, and
-- more fuel than the list has nodes is enough; the bucket of a hash table needs one round. A printed
-- number has at most ten digits, which a 32-bit number needs at most. `msg_queue_get` waits through a
-- list of batches that the other threads put.
--
-- Not modelled: `main` with the order of its steps, the construction of the GTK windows, the calls of
-- glib and of the XML library, and of the tree under src/ the windows, the settings, and the hash table,
-- which differs from its copy under ifc/ in where it allocates. The mutexes of the older program are
-- taken and released around each loop with no way out between, and are left out. The loops of the
-- sockets' threads are given the datagrams that arrive and the batches that are put; the joins of
-- `udp_stop` are not waited for.
pub mod Base
pub mod Dlist
pub mod MemPool
pub mod Queue
pub mod Hash
pub mod Text
pub mod Address
pub mod Feiq
pub mod Blowfish
pub mod Registry
pub mod Protocol
pub mod Socket
pub mod Client
pub mod Emotion
pub mod Config
pub mod Older
