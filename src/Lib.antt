-- ===== src/Lib.antt =====
-- QuickMPC: the computation container, in which several parties compute on additive secret
-- shares.
--
-- A secret is a sum of parts, one for each party, in a field or in fixed point numbers. The
-- parties combine their parts locally, and open values only where a multiplication or a protocol
-- asks for it. A multiplication uses a triple of shares of a product; comparisons of shared
-- numbers are protocols over shared bits.
--
-- Prelude: the names that all modules share, the Boolean tests and the list functions.
--
-- PrimeField: src/ComputationContainer/PrimeField/PrimeField.hpp. A `PrimeField` is its value, a
-- natural number; the operators are `add`, `sub`, `mul`, `div`, `neg`, `rem`, `eq`, `lt`,
-- `getInv` is `get_inv`. `modpow` runs on the 128 bits of its exponent as fuel, which are all
-- that the type of the exponent holds. The outer loop of `modsqrt` runs on fuel 3, which is
-- enough since the loop variable M starts at 2 and becomes smaller. PrimeField/Ring has the ring
-- laws and the rules by which field expressions are compared, PrimeField/Power the power and the
-- inverse, PrimeField/Sqrt the square root.
--
-- Share: src/ComputationContainer/Share/Share.hpp and Share/Networking.hpp. The class template is
-- code over the record `SecretValue`, whose instance for the field is in Share/PrimeValue. A
-- shared value is the function from the identifier of a party to its part, so that one definition
-- says what all parties compute; values that are drawn at random are arguments. `open` followed
-- by `recons` is the sum of the parts; `recons_at` is the loop of one party, which parses the
-- texts of the others. Share/Recons has what reconstruction makes of the local operators,
-- Share/Beaver the multiplication, Share/Vectors that of vectors, Share/Scalars has the operators
-- between a vector and a public value, Share/Sharing `sharize`, `getInv` and the quotient.
--
-- TripleHandler: src/ComputationContainer/TripleHandler/TripleHandler.hpp. The queue of one
-- thread and the batches that the triple service, which is not part of the model, sends.
--
-- Compare: src/ComputationContainer/Share/Compare.cpp and Compare.hpp. Compare itself has the
-- fan-in protocols, the conversions between numbers and bits, the ends of the tests and
-- `equalityTest`; Compare/Bitwise has `subPrefixOr`, `subBitwiseLessThan`, `subHalfLessThan`,
-- `comparisonTest` and `intervalTest`. A vector is a list, the most significant bit first. Each
-- multiplication takes the triple that TripleHandler puts for the field. That a drawn number is
-- invertible is a hypothesis, stated by Fermat's test; that the number of parties is invertible
-- likewise. The random bits of `subRBVS` are arguments, with the hypothesis that they stand for a
-- number of the field, which the code leaves untested on purpose.
--
-- Job: src/ComputationContainer/Job/JobStatus.hpp and Job/JobBase.hpp, Model/ModelBase.cpp,
-- Model/ModelManager.hpp and Server/ManageToComputationContainer/Server.cpp. The status manager
-- with what it tells the database, the run of a model, which passes through the same phases, and
-- the answer to a request for a prediction. What the database and the computation do is an
-- argument.
--
-- KeyIndex and Table: src/ComputationContainer/Client/ComputationToDbGate/ValueTable.cpp.
-- KeyIndex has the index functions over a strict order `less`: the order of numbers, `LessFloat`,
-- is one on whole numbers, but not on all numbers; a `std::map` or `std::set` is a list in which
-- a key is found when it is neither before nor after the one sought. The loop of
-- `intersectionSortedValueIndex` has the sum of both lengths as fuel, which is enough since each
-- round moves on in one list. Table has the joins and `parseRead`; the conversion of cells,
-- `open` with `recons` of a column and the comparisons are the fields of `Setting`. An index of
-- -1 or past the end, undefined in the source, reads a value of which nothing is known.
-- Table/Rows tells joins by rows, Table/Horizontal and Table/Vertical compare the code with that,
-- Table/Read and Table/Extension follow sequences of joins.
--
-- TransactionQueue: src/ComputationContainer/TransactionQueue/TransactionQueue.hpp. A call that
-- has to wait gives `none`.
--
-- JobManager: src/ComputationContainer/Job/JobManager.hpp, with
-- Server/ComputationToComputationContainerForJob/Server.cpp and
-- Client/ComputationToComputationContainerForJob/Client.cpp. A state has the queues of the party
-- that triggers jobs, the request that its loop holds and the threads of all parties; each step
-- of the loop, of a thread or of a caller is a function on states, and a run is any sequence of
-- them. Sending a job to all parties is one step. That the job of a thread comes to an end is not
-- claimed: it may wait for a share for ever. JobManager/Consistency has what the steps keep,
-- JobManager/Safety the identifiers and the order of requests, JobManager/Work and
-- JobManager/Progress what a run comes to.
--
-- Mailbox: src/ComputationContainer/Share/AddressId.hpp, Share/Networking.hpp,
-- Server/ComputationToComputationContainer/Server.cpp and
-- Client/ComputationToComputationContainer/Client.cpp. The map of a server is a function from
-- parties and addresses; a value travels as itself and is parsed where it is read, as in
-- `recons_at` of Share, which is the specification of `recons` over the map. Mailbox/Delivery has
-- any sequence of arriving messages, Mailbox/Network `open` at the servers of all parties,
-- Mailbox/Vectors `recons` of a vector, Mailbox/Batches the batches of the client,
-- Mailbox/Addresses the numbering of shares, whose counter wraps around at 32 bits.
--
-- DecisionTree: src/ComputationContainer/GBDT/SID3.cpp. A tree is its leaves and nodes; shares
-- are told by the values that they stand for. `createTree` takes what it computes with floating
-- point numbers from the record `Training`, and runs on the number of attributes plus one as
-- fuel, which is enough since each call erases one. DecisionTree/Leaf has predictions,
-- DecisionTree/Growth the construction, DecisionTree/Json what is written of a tree and read
-- again; the JSON library itself is not modelled.
--
-- BitTable and TreeJob: src/ComputationContainer/Job/Jobs/SID3Job.hpp and
-- Model/Models/SID3Model.hpp. BitTable groups the columns of a table into attributes, for the
-- training and for a prediction; TreeJob puts the job and the model together.
--
-- JoinJob: src/ComputationContainer/Job/Jobs/JoinTableJob.hpp.
--
-- FixedPoint: src/ComputationContainer/FixedPoint/FixedPoint.hpp. A number is an unbounded
-- integer, the value times 10 ^ 8. `mypow` runs on its exponent as fuel, which is enough since
-- each round halves it. FixedPoint/Sums, FixedPoint/Products and FixedPoint/Orders have the laws.
--
-- BoostedTrees: src/ComputationContainer/GBDT/SID3Regression.cpp, GBDT/SID3Regression.hpp and
-- GBDT/SGBM.hpp, with `sum` and `smean` of Math/Math.cpp. The arithmetic is the record `Numbers`;
-- `createTree` has the depth of its calls as fuel, and more than the number of attributes is
-- enough since each call erases one. BoostedTrees/Gradient has the gradients, BoostedTrees/Growth
-- the construction, BoostedTrees/Boosting the boosting.
--
-- Query: src/ComputationContainer/Client/AnyToDb/N1QL.cpp. Texts are lists of bytes.
-- Query/Literal reads a condition as the database does, Query/Bulk has the insertion of many
-- entries, Query/Cas the numbers of entries, whose loop reads a list of timestamps.
--
-- ConfigParse: src/ComputationContainer/ConfigParse/ConfigParse.hpp. ConfigParse/Address has the
-- parsing of addresses, ConfigParse/Variables the configuration in a test and outside.
--
-- Sid3: src/ComputationContainer/GBDT/SID3.cpp, `createTree` with what it computes at a node; a
-- product of vectors of unequal lengths is an exception. Sid3/Wide compares it with the
-- construction of DecisionTree where the lengths are equal, Sid3/Choice has the class and the
-- attribute that are chosen.
--
-- TreeModel: src/ComputationContainer/Model/Models/DecisionTree.hpp. TreeModel/Weighted tells its
-- predictions by the columns of the table.
--
-- ShareMatrix: src/ComputationContainer/Share/Matrix.cpp. A matrix is the list of its rows.
-- ShareMatrix/Product has the product, ShareMatrix/Inverse the inverse.
--
-- Pieces: src/ComputationContainer/Client/ComputationToDbGate/Client.cpp and
-- Client/AnyToDb/Client.cpp, the tables and answers that arrive in pieces. Pieces/Order has the
-- order in which they arrive.
--
-- Statistics: src/ComputationContainer/Math/Math.cpp, over the numbers of BoostedTrees, which
-- also has its sum and mean. The arrays of `exp` are the list of the pairs of their entries; its
-- loops run 99 times, as in the source.
--
-- Not modelled: the conversions and divisions of fixed point numbers, the sigmoid of an opened
-- number and the regressions that use them, since they rest on the decimal numbers of boost; what
-- the other jobs and models compute, the other handlers of the servers, the gate of the database
-- and the repetition of remote calls that fail; randomness and secrecy: the theorems are about
-- the values that are reconstructed.
--
pub mod Prelude
pub mod PrimeField
pub mod Share
pub mod TripleHandler
pub mod Compare
pub mod Job
pub mod KeyIndex
pub mod TransactionQueue
pub mod JobManager
pub mod Mailbox
pub mod DecisionTree
pub mod BitTable
pub mod TreeJob
pub mod JoinJob
pub mod Table
pub mod FixedPoint
pub mod BoostedTrees
pub mod Query
pub mod ConfigParse
pub mod ShareMatrix
pub mod Pieces
pub mod Sid3
pub mod Statistics
pub mod TreeModel
