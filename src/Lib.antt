-- ===== src/Lib.antt =====
-- sci-etl-core: fetching papers from listings, taking each record through relevance, extraction and
-- export, and searching the papers. This library models the core of the package and proves what it
-- keeps.
--
-- The parts and where they are.
--
-- * Pipeline (src/sci_etl_core/pipeline_async.py). `Pipeline/Page.antt` has the records of a page
--   as tasks: `_settle_record` is the function `resume`, which takes a task from one await to the
--   next, and a schedule of steps is an interleaving of the tasks that `asyncio.gather` runs under
--   the semaphore. `Pipeline/Flush.antt` has the rest of `_process_page` and `_flush_page`,
--   `Pipeline/Run.antt` the loop of `_run_pages`, one turn for each listing request,
--   `Pipeline/Session.antt` the whole of `run` around it, and `Pipeline/Position.antt` the choice of
--   the position. What the collaborators answer (the extractor, the relevance filter, the entity
--   extractor, the exporter, the state manager) is the argument of each step: nothing is assumed of
--   it. `Pipeline/Effects.antt` has the log of what a run does to the exporter and the state manager.
-- * Listing (src/sci_etl_core/_listing_position.py, _listing_head.py, extractors/_offsets.py).
--   `Listing/Position.antt` is `CursorPosition`, `Listing/Head.antt` is `NewestFirstCursor`,
--   `Listing/Head/Newest.antt` is `NewestFirstPosition`, and `Listing/Offsets.antt` has the decimal
--   cursors. An object that shares the run's metadata holds it as a field. The extractor's
--   `cursor_for_offset` is a parameter.
-- * Search (src/sci_etl_core/search). `Search/Ast.antt` and `Search/Normalize.antt` are query.py,
--   `Search/Boolean.antt` and `Search/Evaluate.antt` are evaluate.py over any tokenizer, with its
--   `NEAR` groups in `Search/Evaluate/Near.antt`. parser.py is in `Search/Lexeme.antt` (lexemes and
--   errors), `Search/Scanner.antt` with its children `Leaves` and `Groups` (`_Scanner`, which holds
--   its index with the text from there on), `Search/Parser.antt` (`_Parser` over the lexemes that the
--   scanner gives) and `Search/Query.antt` (`parse_query` and `parse_ranked_query`). An error keeps
--   its position and token, and the message without the words quoted in it. `Search/Fts5.antt` is
--   compile_fts5.py. `Search/Filters.antt` and `Search/Markers.antt` are filters.py: the filters over
--   metadata, and the markers that highlights are cut out by. `Search/Graph.antt` and its children
--   are graph.py: the neighbour lists that the sources give are fetched by `Fetch`, the nodes are
--   found and the edges chosen in `Edges`, `Connected` and `Build`, labelled in `Communities` and
--   filtered in `Filter`; a weight is of any type with the comparisons that the code makes.
-- * State (src/sci_etl_core/state/async_file_state.py). `State/Json.antt` is the JSON object of the
--   metadata file, `State/Lines.antt` the file of processed ids, and `State/Files.antt` the operations
--   of `AsyncFileStateManager` over the two files. The JSON codec is a parameter.
-- * Llm (src/sci_etl_core/llm/cache_async.py). `Llm/Cache.antt` has `InMemoryLLMResponseCache`, whose
--   ordered dict is a list with the entry used last at its head, and `CachingLLMClient` over any
--   cache that keeps the laws `IsCache` of `Llm/Cache/Served.antt`; `Llm/Cache/Memory.antt` shows
--   that the in-memory cache keeps them. What the wrapped client replies is an argument.
-- * Claims (src/sci_etl_core/claims/store_base.py, store_memory.py). `Claims/Store.antt` is
--   `InMemoryClaimStore` with its log of changes.
-- * Embeddings (src/sci_etl_core/embeddings). `Embeddings/Chunking.antt` is the chunker of words.
-- * `Models.antt` has the data of models.py, `Prelude.antt` the shared helpers: text is the list of
--   its code points, numbers are the native natural numbers.
--
-- Fuel. `normalize` takes `depth` units, which are enough. The digits of a cursor take one unit
-- more than the offset. The scanner takes one unit for each character of the text and one for the end,
-- the parser eight for each lexeme and five more. The walk over a `NEAR` group takes twice the
-- starts that are left and two more, the stack loop of a graph twice the edges and one more, the
-- windows of a text one for each word.
--
-- Not modelled. Log lines, events, metrics, clocks and cancellation; the signals around a run.
-- `record_failure` is taken to return in a run. `parse_semantic_query`, the limit on the digits that
-- Python's `int` reads, the tables of the Unicode tokenizer, snippets, and rank fusion, whose scores
-- are floating-point numbers. The stores that SQLite keeps: what their statements do is SQLite's. The
-- digest of a cache key, the extraction and the location of claims, the clients of language models,
-- the document parsers, the extractors' HTTP, the exporters, the configuration and the pandas
-- processors.
pub mod Prelude
pub mod Listing
pub mod Models
pub mod Pipeline
pub mod Search
pub mod State
pub mod Embeddings
pub mod Llm
pub mod Claims
