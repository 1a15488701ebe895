-- ===== src/Lib.antt =====
-- The request orchestrator: a simulation of printers that serve a queue of jobs, run from a terminal
-- or behind a websocket server. A job receiver makes jobs and puts them in a timed queue, or drops
-- them when it is full; printers take jobs from the queue, print them, and ask a paper refiller for
-- paper; an autoscaler starts and stops printers; a signal catcher ends the run. The threads share
-- statistics, which the handlers of a log router keep while they print or publish what happens.
--
-- Files, and the code they model (paths from the root of the repository):
--   LinkedList     src/linked_list.c over an explicit memory (Memory): a list is two sentinels and a
--                  chain of nodes; a command runs to a result, a fault, or the end of its fuel
--   TimedQueue     src/timed_queue.c: a list with the time of its last change
--   Text           text as a list of bytes; printf and atoi for numbers
--   Words          unsigned long and int, with their wrap-around written out
--   Config         include/config.h
--   Clock          src/common/timeutils.c
--   Job            job_t, init_job
--   SimulationStats   simulation_statistics_t; the averages and the variance of src/simulation_stats.c
--                  in SimulationStats.Averages, write_statistics_to_buffer in SimulationStats.Report
--                  and log_statistics in SimulationStats.Printed
--   Journal        what the log handlers read and write
--   ConsoleHandler, WebsocketHandler, LogRouter   src/console_handler.c, src/websocket_handler.c,
--                  src/log_router.c: one function for each handler and each emit function; what they
--                  print or send is in ConsoleHandler.Lines and WebsocketHandler.Frames
--   Printer        src/printer.c: the pool in Printer itself, the thread in Printer.Service, cut at
--                  its locks and sleeps
--   Autoscaling    src/autoscaling.c: the decisions, scale_up and scale_down; the thread, with the lines
--                  it writes, in Autoscaling.Thread
--   Simulation     the state that the threads share
--   JobReceiver    src/job_receiver.c: a turn of the loop and the whole thread
--   SignalCatcher  src/signalcatcher.c
--   PaperRefiller  src/paper_refiller.c, cut at its locks and its sleep
--   System         the threads side by side: a step is one segment of one thread, so that a sequence
--                  of steps is an interleaving; start_system is the start in src/cli.c; System.Requests,
--                  System.Announced and System.Measure hold what System.Progress is proved with
--   QueueArea      the area under the queue length, across the handlers of both backends
--   Server         src/server.c: the commands of the websocket and the runs of the simulation; the HTTP
--                  replies in Server.Http, and the way of a message to its client in Server.Bridge
--                  and Server.Stream; its start in Server.Startup
--   Preprocessing  src/preprocessing.c: the options
--   Cli            src/cli.c: a whole run, from the options to the report after the joins
--
-- In the modules of the threads the job queue is the list of jobs that a timed queue stands for, in
-- the sense of TimedQueue.Contract. What the outside decides is an argument: clock readings, what
-- malloc, rand and pthread_create answer, what the other threads do between two locks. The code
-- ignores the answer of malloc for a node of the job queue and for a request for paper, and that of
-- pthread_create for a runner of the server; the jobs and the requests that are lost so are counted
-- along the steps of System (lost_jobs, lost_requests). Doubles are
-- parameters: atof, the comparison of rates, and the times that the divisions by the rates give. A
-- count that C keeps as a double is a natural number.
--
-- Fuel: list_clear runs on one round more than the count that the list records, list_find on two
-- more; a list of n nodes is empty after n rounds, and a search also visits the tail sentinel.
-- Every other loop but the two named below is a recursion on the list or the number of turns that
-- it goes through.
--
-- The wake-up time carries in at most four rounds, since a reading of the clock has less than a
-- second of microseconds and the time to wait is below 2148 ms. A number has fewer digits than
-- itself plus one, which is the fuel that prints it.
--
-- Not modelled: the square root and the formats of doubles, which are parameters; mongoose, and the
-- wiring of the argument structs; the autoscaler as a thread of System, with the cancellation of a
-- printer, so that a run of Cli is one without it; the memory of the jobs, where a printer that
-- waits for paper may read a job that another printer has freed. A thread that waits for a
-- condition may look again at any time. A wake-up that the code can lose, that of a printer
-- which waits for paper when the signal comes, is left open: from the signal on System.Progress
-- lets such a printer count as one that has nothing more to do.
pub mod Base
pub mod Memory
pub mod LinkedList
pub mod TimedQueue
pub mod Text
pub mod Words
pub mod Clock
pub mod Config
pub mod Job
pub mod Printer
pub mod Autoscaling
pub mod SimulationStats
pub mod Journal
pub mod ConsoleHandler
pub mod WebsocketHandler
pub mod LogRouter
pub mod Simulation
pub mod JobReceiver
pub mod SignalCatcher
pub mod PaperRefiller
pub mod System
pub mod Preprocessing
pub mod QueueArea
pub mod Cli
pub mod Server
