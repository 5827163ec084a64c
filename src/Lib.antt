-- ===== src/Lib.antt =====
-- zhiya: the robot back end for chat rooms (go). The program receives messages and status changes
-- from a chat service through queues (cmd, utils), keeps chat rooms, members and robots in a
-- database (models, uchat), and answers its web clients (apis). This library models parts of it
-- that have logic of their own, and proves what makes them correct.
--
-- The parts and the files:
-- * utils/yl_hash_id.go, the obfuscated ids: Utils/FakeId.antt (mix, setVersion, getVersion,
--   demix, FakeIdEncode, FakeIdDecode, under those names in snake case), and Utils/FakeId/Base36
--   for what the code uses of strconv and strings. An int64 or uint64 is its pattern, a number
--   below 2 ^ 64, and every operation that can wrap is taken modulo 2 ^ 64. Fuel: 22 rounds for
--   the octal digits, since 8 ^ 22 > 2 ^ 64; five for the loop of `mix`, which takes five digits a
--   round; four for the loop of `demix`, which takes 18 bits a round; 13 digits in base 36.
-- * shorten/lru.go, the cache of fixed size: Shorten/Lru.antt, one definition for each method.
--   A pointer of container/list is a number, given out once; the callback's calls are a list in
--   the state. The size is a natural number: a negative one is refused as 0 is. Shorten/Lru/Spec
--   is the abstract cache, a list of pairs with the most recent first.
-- * uchat/special.go, the group picture: Uchat/HeadImage.antt (generate, writeImages, rectangle_2,
--   rectangle_3, writeImage_1 to writeImage_9, createBoard, backgroundColor), and
--   Uchat/HeadImage/Fetch for SetImages and AddImage, where the download is a parameter. A colour
--   is what image.RGBA stores of it. JPEG encoding and the upload are not modelled.
-- * shorten/t.go, the client of the short-link service: Shorten/T.antt, over a service, a decoder and
--   a test download that are parameters.
-- * uchat/sync.go, two replies: Uchat/Keyword.antt is FetchChatRoomCustomKeywordReplyTemplate, and
--   Uchat/ChatHours.antt is FetchChatRoomIntelligentChatTemplate. The templates that the database
--   holds are their input.
-- * models/robot_join.go with OpenChatRoom and DeleteRobotJoin of apis/api_v2.go:
--   Apis/RobotJoin.antt. The database and the chat service are parameters, and the hypotheses on
--   the database are the documented behaviour of Save and of the query. A commit can fail, here and in
--   the other transactions, and then the database is the one before the transaction.
-- * apis/apply_code.go, the codes: Apis/ApplyCode.antt is FetchApplyCode, with FindValidRobotByMyId and
--   FindValidCodeRobotByMyId of models/robots.go. The queries and the chat service are parameters.
-- * uchat/template.go, the work templates: Uchat/WorkTemplate.antt is UpdateWorkTemplate and
--   SetDefaultWorkTemplate, and Uchat/RoomTemplates.antt is ApplyChatRoomTemplate with the links of
--   models/cmds.go, over databases that are parameters. A rollback gives the database at the beginning of
--   the transaction with what was changed outside of it.
-- * utils/receive.go, the publisher: Utils/Receive.antt, where the goroutine Receive and the callers of
--   Publish are steps on one state, with the channel of 2000 messages as a list. The broker is the
--   outcome of each call; a publishing without an error is all that is known of it.
-- * utils/consumer.go, utils/queue.go and cmd/uchat.go, the other end: Utils/Consumer.antt is link and
--   Consumer, Utils/Queue.antt is CreateQueue, BindRoutingKey and RegisterQueue, and Cmd/Shell.antt
--   is the switch on a queue's name with the handlers, over an interface for the callbacks. The queue
--   runs a handler in a goroutine for each delivery, and the model is of one of them.
-- * cmd/mqueue.go, the messages that wait: Cmd/MQueue.antt is a round of MQueue after its queries. It
--   uses Utils/FakeId for the links of products.
-- * the tables of members and chat rooms: Uchat/Tables.antt has the rows of models/members.go and
--   models/chat_rooms.go, the calls of gorm as an interface and what gorm documents of them;
--   Uchat/Tables/Memory is an instance in memory that meets it. An empty field of a struct is no condition
--   for gorm, so what is found by Ensure is known for serial numbers that are not empty.
-- * uchat/sync.go, members that quit or write: Uchat/Members.antt is SyncMemberQuitCallback and
--   SyncMemberMessageSumCallback, with ApplyMemberCount of models/chat_rooms.go, and
--   Uchat/MemberJoin.antt is SyncMemberJoinCallback with the welcome of Uchat/JoinMessage.
-- * uchat/callback.go, the list of members: Uchat/RoomMembers.antt is SyncChatRoomMembersCallback, with
--   Ensure and Unactive of models/members.go.
-- * uchat/sync.go, the welcome: Uchat/JoinMessage.antt is FetchChatRoomMemberJoinMessage,
--   FetchChatRoomMemberJoinMessageTemplate and SendChatRoomMemberTextMessage. The table of messages
--   is an interface; a duration is a natural number of nanoseconds.
--
-- Not modelled: the third-party code under vendor (gorm, amqp, echo, the chat service's client),
-- the commands' flags and configuration, and the functions of uchat, models, apis, tuling
-- and chatbot that no file here names.
pub mod Prelude
pub mod Utils
pub mod Shorten
pub mod Uchat
pub mod Apis
pub mod Cmd
