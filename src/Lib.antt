-- ===== src/Lib.antt =====
-- Model of the nano-qwen3tts-vllm runtime: a text-to-speech server with a fair stream scheduler
-- in front of an inference engine.
--
-- Streams (nano_qwen3tts_vllm/stream_scheduler.py and the ends of streams in
-- nano_qwen3tts_vllm/stream_routes.py). Streams/State holds the class's fields and its jobs,
-- Streams/Turns the choice of the next stream, Streams/Calls its public methods, with `cancel` in
-- Streams/Calls/Cancel, and Streams/Routes the route that opens a stream and the end of its
-- generator. Each critical section under `queue_condition` is a function from a state to a result
-- and a state; Streams/History lists them as the steps of a relation, and the method
-- `wait_until_stream_can_run` is one step to its loop and one for each round. Times are whole
-- ticks that a call is given. Streams/Pruning, Rounds, Rule and Keeping carry a rule for the loop
-- that pops a stream, and Admission, Outcomes, Completion, Cancelling, Waiting, Fairness and
-- Abandoned apply it.
--
-- Engine (nano_qwen3tts_vllm/engine). Engine/Sequence models sequence.py and Engine/Blocks
-- block_manager.py, whose exceptions are the values of Engine/Effects. Blocks/Counts states the
-- accounts of the manager against a function that counts how often block tables hold a block:
-- each block is free or used, once, and used exactly if it is referred to. Blocks/Allocation,
-- Table and Filling follow one round and then the loop of `allocate`, Release `deallocate`,
-- Appending and Prompts `may_append`, and Cycle puts them together. The digest of compute_hash is
-- a parameter of which nothing is assumed, so hash collisions are covered: a hit counts only if
-- the tokens are equal. A reference count that would fall below zero, on which the source goes
-- on, is an error of the model.
--
-- Engine/Scheduler models scheduler.py. The queues hold ids, and a store maps an id to the
-- sequence that the source's queues share as one object; Scheduler/Prefill follows the prefill
-- against the accounts of all tables of the store, Scheduler/Endings the preemption and the end
-- of a sequence, and Scheduler/Fuel the loop that makes room.
--
-- Models (nano_qwen3tts_vllm/runtime_models.py) is the catalogue of models with its aliases, and
-- Models/Choice follows `pick_runtime_model`. The text functions `str.lower` and the last part of
-- a path are parameters.
--
-- Auth (nano_qwen3tts_vllm/auth.py) is the check of API keys, and Auth/Decision says which
-- requests it refuses. `hmac.compare_digest` is a parameter that is assumed to tell whether two
-- ASCII texts are equal, and to raise for others, as it is documented.
--
-- Voices/Rows, Voices/Store and Voices/Picking are the stored voices
-- (nano_qwen3tts_vllm/voice_store.py): each method is a function of the document of the state
-- file. Voices/Validity and Voices/History have the store's invariant over every sequence of
-- calls, Voices/Effects, Voices/Mapping its view as a map from ids, Voices/Choosing the choice of
-- a voice, Voices/Enabled the lists of enabled ids. Voices/Uploads is voice_uploads.py, with
-- Voices/Naming and Voices/Prepared on it; Voices/Service is voice_service.py; Voices/Routes and
-- Voices/Routes/Admin are the handlers of voice_routes.py, as functions of the store and the
-- files in the voices' directory, with Voices/Routes/Untouched, Voices/Routes/Isolation and
-- Voices/Routes/Requests on them. Whisper, the decoder of sound files, `str.lower` and questions
-- about paths are parameters.
--
-- Engine/Talker is engine/llm_engine/talker_llm_engine.py: the scheduler that decodes only
-- sequences with a next input, the requests; Engine/Talker/Steps has the step, and
-- Engine/Talker/Idle, Requests and Adding its theorems. Engine/Predictor is
-- predictor_llm_engine.py and what base.py shares, Engine/Predictor/Ended its theorem.
-- Models/Policy is runtime_policy.py.
--
-- Streams/Audio is the audio of a stream (stream_routes.py, audio_stream_generator_async): the
-- producer puts all codes so far after every four, the consumer decodes a window of 48 and yields
-- the new samples. Streams/Audio/Decoding has the window that is decoded for each item,
-- Streams/Audio/Pipe has the two tasks as a step relation with the queue of four between them,
-- and Streams/Audio/Order has the order of what comes through it.
--
-- Streams/Prepare is the route prepare_stream, where the parts meet: the policy resolves the
-- model, the store of voices gives a base model its reference, and the scheduler gets the
-- request.
--
-- Transport is the way of the engines' outputs to the requests (nano_qwen3tts_vllm/zmq): the
-- messages that output_bridge.py publishes, and the thread and the loop of dispatcher.py.
-- Transport/Delivery follows an output from its topic to the request's queue. Transport/Payload
-- encodes a token and reads it again, for any msgpack whose `unpackb` undoes its `packb`.
--
-- Runtime is the model that is loaded and the change to another
-- (nano_qwen3tts_vllm/model_runtime.py). Each call outside does its work or raises, as a record
-- of outcomes says. Runtime/Decoding is the decoding of a batch.
--
-- Loops are structural recursion on the rounds that the source's range gives or on the queue they
-- walk. The decode loop and the one that makes room take fuel: each of their rounds takes a
-- sequence from the running queue, so that its length is enough. Natural numbers have no bound,
-- as Python's have none.
--
-- Not modelled: tensors and the model's layers and runners, the generation interface over
-- threads, the loops of `generate` with their progress bars, the routes that only return values,
-- the synthesis of a preview, the web pages, the sockets of ZeroMQ and messages that it drops,
-- the loop that calls the engines' steps, and the loading of weights and audio, which are calls
-- of other packages. A request is taken to run without another one between its steps, but for the
-- scheduler's calls, the two halves of `toggle_enabled_voice_id` and the two tasks of a stream,
-- which are modelled as steps. Ids of users and voices are not negative.
pub mod Common
pub mod Streams
pub mod Engine
pub mod Models
pub mod Auth
pub mod Voices
pub mod Transport
pub mod Runtime
