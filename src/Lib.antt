-- ===== src/Lib.antt =====
-- mopher is a milter for mail servers: a daemon that sendmail or postfix asks, at each stage of an
-- SMTP conversation, what to do with the message. The answer comes from an access list of tables of
-- rules. This library models the parts that decide it.
--
-- The parts and how they meet. src/milter.c keeps a table of variables for each connection, the
-- mailspec, and calls `acl` of src/acl.c at each stage. `acl` goes through the table of the stage:
-- it evaluates the expressions (src/exp.c), which read and set variables of the mailspec, runs the
-- handler of the first rule that holds, sends the reply of the rule and records which rule it was.
-- One of the handlers is the greylist of src/greylist.c, which keeps a record for each origin,
-- sender and recipient in a database (src/dbt.c), which a driver such as the one in memory keeps
-- (src/modules/memdb.c). The commands of src/server.c reach the same database and the greylist.
-- Tables of variables are src/vtable.c on the hash tables of src/ht.c, and the tables of rules are
-- found in src/sht.c.
--
-- Which file models what.
-- - Prelude, Prelude/Int, Prelude/Lists, Prelude/Tests: shared names, integers, tests on numbers.
-- - Var, Vtable, Vtable/Laws: `var_t` and tables by name (src/var.c, src/vtable.c, src/vlist.c). A
--   function of the source has the name that it has there.
-- - Var/Cast, Var/Compare: types, casts and comparisons of variables (src/var.c). What C makes of
--   floating-point numbers, and the functions of src/util.c and src/blob.c that they call, are the
--   parameters of a record.
-- - Exp: the expressions of the access list and what each operator makes of values (src/exp.c).
--   Child modules: Symbols is what an expression reads and sets (src/acl.c, src/milter.c), Eval the
--   evaluator, Logic the operators on truth values, Compare the comparisons, Numbers the
--   arithmetic, Variables the assignments, Arguments those of functions, Pure what leaves the
--   mailspec alone, Rules the interface of Acl and Greylist with these expressions. Regular
--   expressions and the registered symbols and functions are parameters.
-- - Exec, Exec/Post: functions that change a state and may fail, and what holds after them. A
--   failure is an error value of the source, or a place where C has no defined behaviour.
-- - Stage, Action: `milter_stage_t` and `acl_action_type_t` (src/include/milter.h,
--   src/include/acl.h), with the stages in which each action is allowed.
-- - Dbt: a database of records as an interface: reads, writes, and what a read returns after a
--   write.
-- - Greylist: the record, the decision for one recipient, and `greylist_pass` of the control socket
--   (src/greylist.c). The function `greylist_recipient` is split where it returns early. Child
--   modules: Record has the record and what a rule requests, Handler the action `greylist`,
--   Recipient the outcomes of a decision, Recipient/Steps what its steps leave alone, Schedule the
--   times that the table keeps, Pass what a client's pass brings, Message a whole message.
-- - Acl: `acl`, its handlers and its replies (src/acl.c, `milter_set_reply` of src/milter.c). The
--   body of the loop in `acl` is split at its two `switch` statements. Acl/Types has the records of
--   src/include/acl.h and `acl_match`. The other child modules: Rules is which rules are evaluated,
--   Depth the recursion, Match the record of the match, Replies the replies.
-- - Ll: linked lists (src/ll.c) in a memory of entries, with fuel for the walk; Ll/Chain is the
--   sequence that a list stands for. The other modules take such lists as sequences.
-- - Ht: the hash tables of src/ht.c. A chain is a list of records with its head first, and
--   `ht_insert` is split at the test of the load. Child modules: Place is where records stand,
--   Insert and Remove what a lookup returns after a change, Walk the order of `ht_next`, Head what
--   an insertion makes of the start of a walk, Levels how often a resize resizes again.
-- - Sht: tables by string (src/sht.c) on Ht. Sht/Map is about the map from strings that a table
--   stands for, and uses only what Ht's child modules say of the hash tables. Sweep is a walk in
--   which the caller removes records that it has been handed.
-- - Hash: the functions on the bytes of a key that Ht's tables take their places from (src/hash.c).
-- - Vp: a record of variables as a key and a text of bytes, the form that databases store
--   (src/vp.c). Child modules: Bits is the vector of absent values, Objects the data of one
--   variable, Round packing and unpacking, Keys how two packed keys differ.
-- - Memdb: the database in memory (src/modules/memdb.c), on Ht and Vp. Memdb/Map compares it with a
--   list of records, and Memdb/Sample has the layout of one record. Memdb/Janitor is the removal of
--   expired records (src/dbt.c): Steps is one record of it, Cleanup the whole walk.
-- - Janitor: the thread that cleans up tables (src/dbt.c), with the cleanup of a database as a
--   parameter that Memdb/Janitor is one instance of; Janitor/Due is when it runs.
-- - Counter: the counters of messages (src/modules/counter.c) on an interface of four databases,
--   with the functions of src/dbt.c and src/vlist.c that read records by a table's names. Scheme is
--   the four tables, Found keys that are in the mailspec, Update one message, Lookup the symbols of
--   rules.
-- - Tarpit: the handler of the tarpit (src/tarpit.c), on the expressions of Exp. Its loop is on
--   fuel. Tarpit/Naps is about how long it lasts.
-- - Regdom: the walk of regdom over the labels of a name (src/regdom.c), on fuel; the rules are a
--   parameter. Regdom/Suffix is about its end and what it returns.
-- - Msgmod: the handler that asks the mail server for changes of the message (src/msgmod.c);
--   Msgmod/Asked compares what it asks with what the configuration says.
-- - Util: texts with mail addresses, quotes, and names of modules (src/util.c); Util/Quote is what
--   a quoted text reads as. Util/Address is the addresses of clients: Prefix the network of one,
--   Order the comparison.
-- - Milter: `milter_acl` and `milter_priv_clear_msg` (src/milter.c). Child modules: Callbacks is
--   what each callback puts into the mailspec, Session the callbacks themselves and the private
--   data of a session, Answer what the mail server is told, Clear what is left of a message when it
--   ends, Lengths and Measured the lengths of what a session collects, Stages the stage variables
--   and sessions without private data. Child functions of a callback that the source writes in its
--   body have names of their own.
-- - Server: the control socket, on which an operator asks the daemon for dumps and lets messages
--   pass (src/server.c): replies, checks and data with their size in front, for both ends. Child
--   modules: Transfer follows data from one end to the other, Commands is one request, with
--   Requests and Quiet about what it changes and Answers about the status that is sent, and Clients
--   the slots of `server_main`. What the database and the greylist do for a command is a record of
--   functions, the numbers that vsnprintf writes and atoi reads are parameters, and what the
--   sockets bring is a list of pieces.
-- - Base64: the encoder and the decoder (src/base64.c), on lists of bytes. Child modules: Alphabet
--   is one group of four characters, Groups the text of a sequence of bytes, Round both ways
--   together.
-- - The modules named Tests run the model on concrete data.
--
-- Bounds. The recursion of tables ends at `MAX_RECURSION`, which is 256: `acl` is defined by
-- recursion on the levels that are left, and Acl/Depth is about the tables that a chain of calls
-- reaches. The loop of Tarpit has fuel for a number of naps; each nap but the last takes the
-- interval, so that the seconds of the delay are enough where the interval is at least one. The
-- walk of Memdb has fuel for calls of `ht_next`: one for each record and one more are enough. The
-- reads of `server_data_cmd` have fuel, of which as much as there are bytes is enough where no read
-- returns nothing. A walk of Ll has fuel for its entries and one more. The janitor's loop goes over
-- the times at which it runs. The other loops go over a list. Times and counters are integers
-- without bound, except that an `int` which takes a time is reduced modulo 2^32; `VAR_INT_T` has 64
-- bits, and no time or counter of the program reaches them. Exp keeps the low 64 bits of a sum, a
-- difference or a product of integers and Util/Address the low 32 of the distance to a prefix, as
-- the processor does where C leaves the overflow undefined; a division that the processor refuses
-- has no result. In Ht the counters are integers without bound, and a resize of the table that a
-- resize fills is bounded by a number of levels, and Ht/Levels is about how many are enough.
--
-- What is not modelled. Greylist and Acl take the expressions as a type with an evaluator that may
-- change the mailspec, which Exp/Rules fills; the parser that builds expressions is not part of the
-- library, and `/` on an address does not change the variable that it was read from. Failed
-- allocations, log lines, who frees a value, and the locks of the database are left out: the
-- database is one value, and a call of a handler is one step. The exit on a database failure that
-- `cf_dbt_fatal_errors` asks for is left out. The library's `smfi_setreply` is a parameter, and so
-- are the functions that `acl_update` calls and the functions of src/util.c and src/regdom.c on
-- addresses and host names. The watchdog and the start of the milter are left out, and so are the
-- drivers of other databases, SQL, the calls that open sockets (src/sock.c), mopherctl with
-- src/client.c, and signals and threads; in Server a write is whole or fails, and the largest
-- descriptor for `select` is left out. So are src/modules/hitlist.c, src/blob.c, src/cf.c, and what
-- opens and dumps databases in src/dbt.c and prints and scans variables in src/var.c. What
-- `var_dump_data` makes of a table or a list is a parameter of Vp. Acl takes handlers of other
-- parts (tarpit, msgmod, pipe) as parameters that send no reply.
pub mod Prelude
pub mod Var
pub mod Vtable
pub mod Exec
pub mod Stage
pub mod Action
pub mod Counter
pub mod Dbt
pub mod Greylist
pub mod Acl
pub mod Ll
pub mod Ht
pub mod Sht
pub mod Milter
pub mod Exp
pub mod Util
pub mod Regdom
pub mod Tarpit
pub mod Base64
pub mod Vp
pub mod Hash
pub mod Memdb
pub mod Janitor
pub mod Msgmod
pub mod Server
